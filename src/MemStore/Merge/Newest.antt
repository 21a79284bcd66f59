-- ===== src/MemStore/Merge/Newest.antt =====
-- Which assertions survive a merge.
use braincrawl.Base.{
  String, true, false, Option, none, some, string_eq, pair_eq, ◌≡◌, ◌≢◌, ◌⊎◌, inl, inr, refl,
  Bool-cases, str_lt, str_lt_irrefl, str_lt_trans,
}
use braincrawl.Base.Map.{Map, get}
use braincrawl.MemStore.{NodeAssertionRow}
use braincrawl.MemStore.Repoint.{moved}
use braincrawl.MemStore.Merge.{newer, merge_assertion_rows, to_survivor}
use braincrawl.MemStore.Merge.Rows.{owned-moved, owned_gone, owned_other}

-- `new` holds the row of `old` or one fetched no earlier.
abbrev pub NotOlder : Option NodeAssertionRow → NodeAssertionRow → Type 0
NotOlder none new = Unit
NotOlder (some old) new = str_lt new.fetched_at old.fetched_at ≡ false

-- One of two rows, and no older than either.
abbrev pub IsNewest :
    Option NodeAssertionRow → Option NodeAssertionRow → Option NodeAssertionRow → Type 0
IsNewest a b none = (a ≡ none) × (b ≡ none)
IsNewest a b (some row) = ((a ≡ some row) ⊎ (b ≡ some row)) × NotOlder a row × NotOlder b row

asym : (a b : String) → str_lt a b ≡ true → str_lt b a ≡ false
asym a b h = elim (Bool-cases (str_lt b a)) [
  | inl k ↦ cc (str_lt_irrefl a, str_lt_trans a b a h k)
  | inr k ↦ k
]

moved-IsNewest :
    (k : String × String) (a b : Option NodeAssertionRow)
    → IsNewest a b (moved (to_survivor k.0) newer a b)
unfolding newer
moved-IsNewest k none none = (refl, refl)
moved-IsNewest k none (some row) = (inr refl, tt, str_lt_irrefl row.fetched_at)
moved-IsNewest k (some row) none = (inl refl, str_lt_irrefl row.fetched_at, tt)
moved-IsNewest k (some old) (some row) = elim (Bool-cases (str_lt old.fetched_at row.fetched_at)) [
  | inl h ↦ rw h (inr refl, asym old.fetched_at row.fetched_at h, str_lt_irrefl row.fetched_at)
  | inr h ↦ rw h (inl refl, str_lt_irrefl old.fetched_at, h)
]

-- After a merge of two different nodes the survivor holds, for each source, one of the two
-- nodes' own assertions, fetched no earlier than either; the loser holds none; and another
-- node's are unchanged.
pub merge-IsNewest :
    (survivor loser : String) (m : Map (String × String) NodeAssertionRow) (id source : String)
    → survivor ≢ loser
    → IsNewest
        (get (survivor, source) m)
        (get (loser, source) m)
        (get (survivor, source) (merge_assertion_rows survivor loser m))
      × (get (loser, source) (merge_assertion_rows survivor loser m) ≡ none)
      × (id ≢ survivor
          → id ≢ loser
          → get (id, source) (merge_assertion_rows survivor loser m) ≡ get (id, source) m)
unfolding merge_assertion_rows
merge-IsNewest survivor loser m id source ne = (
  rw (owned-moved survivor loser ne newer m source)
      (moved-IsNewest (survivor, source) (get (survivor, source) m) (get (loser, source) m)),
  owned_gone survivor loser ne newer m source,
  owned_other survivor loser ne newer m id source,
)
