-- ===== src/Store/Citations/Fresh.antt =====
-- A generator whose ids are longer than the id of any node, so that they are never one of them.
use Prim.Native.String.{◌++◌ as str_append}
use braincrawl.Base.{
  ℕ, ◌+◌, ◌≤◌, ◌<◌, String, some, [], ◌∷◌, length, length-append, string_eq, ◌==◌, ◌≡◌, inl, inr,
  ap, ◌∙◌, arith, Option-cases, Bool-cases, eq_of_beq,
}
use braincrawl.Base.Decimal.{codes-append}
use braincrawl.Base.Map.{Map, get}
use braincrawl.Base.Text.{codes}
use braincrawl.MemStore.{MemStoreInner, NodeRow}
use braincrawl.Store.{Outside}
use braincrawl.Exec.{ok}
use braincrawl.Store.Citations.Kept.{IsFresh}

abbrev longest : Map String NodeRow → String
longest [] = "z"
longest ((id, row) ∷ nodes) = str_append id (longest nodes)

abbrev size : String → ℕ
size s = length (codes s)

size-append : (a b : String) → size (str_append a b) ≡ size a + size b
size-append a b = ap length (codes-append a b) ∙ length-append (codes a) (codes b)

size-longest : (nodes : Map String NodeRow) → 1 ≤ size (longest nodes)
size-longest [] = omega arith
size-longest ((id, row) ∷ nodes) = omega (arith, size-append id (longest nodes), size-longest nodes)

shorter :
    (id : String) (nodes : Map String NodeRow) (row : NodeRow)
    → get id nodes ≡ some row
    → size id < size (longest nodes)
unfolding get
shorter id [] row h = absurd cc
shorter id ((j, r) ∷ nodes) row h = elim (Bool-cases (j == id)) [
  | inl t ↦
      omega (arith, ap size (eq_of_beq j id t), size-append j (longest nodes), size-longest nodes)
  | inr f ↦ omega (arith, shorter id nodes row (rw f at h), size-append j (longest nodes))
]

abbrev pub growing : Outside MemStoreInner
growing = record {
  now_rfc3339 = λ s. "2026";
  new_guid = λ s. longest s.nodes;
  with_lock = λ k s. (ok tt, s);
}

pub growing-IsFresh : IsFresh growing
growing-IsFresh s = elim (Option-cases (get (longest s.nodes) s.nodes)) [
  | inl gone ↦ gone
  | inr (row, e) ↦ absurd (omega (arith, shorter (longest s.nodes) s.nodes row e))
]
