-- ===== src/Base/Hash.antt =====
-- `^` on machine words, and the numerals of `{:016x}`.
use Prim.Native.Nat.{ℕ, zero, suc, ◌+◌, ◌*◌, ◌/◌, ◌%◌, ◌^◌}
use Prim.Native.String.{String, ◌++◌ as str_append}
use mathlib.Core.List.{List, [], ◌∷◌}

-- Bit by bit, for so many bits.
unfoldable pub xor : ℕ → ℕ → ℕ → ℕ
xor zero a b = 0
xor (suc bits) a b = (a % 2 + b % 2) % 2 + 2 * xor bits (a / 2) (b / 2)

unfoldable pub hex_digit : ℕ → String
hex_digit zero = "0"
hex_digit (suc zero) = "1"
hex_digit (suc (suc zero)) = "2"
hex_digit (suc (suc (suc zero))) = "3"
hex_digit (suc (suc (suc (suc zero)))) = "4"
hex_digit (suc (suc (suc (suc (suc zero))))) = "5"
hex_digit (suc (suc (suc (suc (suc (suc zero)))))) = "6"
hex_digit (suc (suc (suc (suc (suc (suc (suc zero))))))) = "7"
hex_digit (suc (suc (suc (suc (suc (suc (suc (suc zero)))))))) = "8"
hex_digit (suc (suc (suc (suc (suc (suc (suc (suc (suc zero))))))))) = "9"
hex_digit (suc (suc (suc (suc (suc (suc (suc (suc (suc (suc n)))))))))) = hex_letter n
  where
    hex_letter : ℕ → String
    hex_letter zero = "a"
    hex_letter (suc zero) = "b"
    hex_letter (suc (suc zero)) = "c"
    hex_letter (suc (suc (suc zero))) = "d"
    hex_letter (suc (suc (suc (suc zero)))) = "e"
    hex_letter n = "f"

-- So many hexadecimal digits of a number.
unfoldable pub to_hex : ℕ → ℕ → String
unfolding hex_digit
to_hex zero n = ""
to_hex (suc width) n = str_append (to_hex width (n / 16)) (hex_digit (n % 16))

-- `fnv1a_hash`: FNV-1a on 64 bits.
unfoldable pub fnv1a : ℕ → List ℕ → ℕ
unfolding xor
fnv1a h [] = h
fnv1a h (b ∷ bytes) = fnv1a (xor 64 h b * 1099511628211 % 2 ^ 64) bytes

unfoldable pub fnv1a_hash : List ℕ → String
unfolding fnv1a to_hex
fnv1a_hash bytes = str_append "fnv1a:" (to_hex 16 (fnv1a 14695981039346656037 bytes))
