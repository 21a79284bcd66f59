-- ===== src/MemStore/Invariant.antt =====
-- What holds of the tables between operations: merge redirects lead to smaller ids that exist, and
-- every other row belongs to a live node.
use mathlib.Core.Option
use braincrawl.Base.{
  String, true, none, some, List, ◌==◌, string_eq, pair_eq, triple_eq, if◌then◌else◌, ◌≡◌, ◌≢◌, ◌⊎◌,
  inl, inr, sym, arith, Option-cases, Bool-cases, str_lt, eq_of_beq,
}
use braincrawl.Base.Map.{Map, get, get-insert}
use braincrawl.Types.{Artifact}
use braincrawl.MemStore.{NodeRow, NodeAssertionRow, EdgeAssertions, MemStoreInner, redirect}

-- `merged_into IS NULL`
abbrev pub IsLive : Map String NodeRow → String → Type 0
IsLive nodes id = (row : NodeRow) × (get id nodes ≡ some row) × (row.merged_into ≡ none)

abbrev pub IsNode : Map String NodeRow → String → Type 0
IsNode nodes id = (row : NodeRow) × (get id nodes ≡ some row)

-- A redirect leads down in the order of ids, and to a node.
pub record RedirectsDown (nodes : Map String NodeRow) : Type 0 where
  pub down :
      (id n : String) (row : NodeRow)
      → get id nodes ≡ some row
      → row.merged_into ≡ some n
      → str_lt n id ≡ true
  pub target :
      (id n : String) (row : NodeRow)
      → get id nodes ≡ some row
      → row.merged_into ≡ some n
      → IsNode nodes n

pub record OwnersLive (s : MemStoreInner) : Type 0 where
  pub aliases : (k : String × String) (id : String) → get k s.aliases ≡ some id → IsLive s.nodes id
  pub assertions :
      (id source : String) (row : NodeAssertionRow)
      → get (id, source) s.node_assertions ≡ some row
      → IsLive s.nodes id
  pub edges :
      (a b r : String) (row : EdgeAssertions)
      → get (a, b, r) s.edges ≡ some row
      → IsLive s.nodes a × IsLive s.nodes b
  pub artifacts :
      (id role : String) (rows : List Artifact)
      → get (id, role) s.artifacts ≡ some rows
      → IsLive s.nodes id

pub record IsValid (s : MemStoreInner) : Type 0 where
  pub redirects : RedirectsDown s.nodes
  pub owners : OwnersLive s

-- Owners that are live stay live where all live nodes do.
pub OwnersLive-grow :
    (s : MemStoreInner) (nodes : Map String NodeRow)
    → ((j : String) → IsLive s.nodes j → IsLive nodes j)
    → OwnersLive s
    → OwnersLive (record s { nodes = nodes })
OwnersLive-grow s nodes grow o = record {
  aliases = λ k id e. grow id (o.aliases k id e);
  assertions = λ id source row e. grow id (o.assertions id source row e);
  edges = λ a b r row e. let (l, m) = o.edges a b r row e in (grow a l, grow b m);
  artifacts = λ id role rows e. grow id (o.artifacts id role rows e);
}

-- The chain of redirects from a node to its live representative.
pub data Leads (nodes : Map String NodeRow) : String → String → Type 0 where
  stop : {id : String} → IsLive nodes id → Leads nodes id id
  hop :
      {id n root : String} (row : NodeRow)
      → get id nodes ≡ some row
      → row.merged_into ≡ some n
      → Leads nodes n root
      → Leads nodes id root

pub Leads-IsLive :
    {nodes : Map String NodeRow} {id root : String} → Leads nodes id root → IsLive nodes root
Leads-IsLive (stop l) = l
Leads-IsLive (hop row e m rest) = Leads-IsLive rest

abbrev pub redirected : String → NodeRow → NodeRow
redirected target row = record row { merged_into = some target }

pub get-redirect :
    (id target j : String) (nodes : Map String NodeRow)
    → get j (redirect id target nodes)
      ≡ (if id == j then Option.map (redirected target) (get j nodes) else get j nodes)
unfolding redirect
get-redirect id target j nodes = elim (Option-cases (get id nodes)) [
  | inl gone ↦ rw (gone, redirect) (ground (arith, string_eq.beq_iff id j))
  | inr (row, found) ↦
      rw (found, redirect)
        (ground (
          arith,
          string_eq.beq_iff id j,
          get-insert id j (record row { merged_into = some target }) nodes,
        ))
]

module _ (nodes : Map String NodeRow) (id target : String) where
  -- A redirect takes the status of being live from its own node alone.
  pub redirect-IsLive : (j : String) → j ≢ id → IsLive nodes j → IsLive (redirect id target nodes) j
  redirect-IsLive j ne (row, e, m) =
      (row, ground (arith, get-redirect id target j nodes, string_eq.beq_iff id j), m)

  pub redirect-IsNode : (j : String) → IsNode nodes j → IsNode (redirect id target nodes) j
  redirect-IsNode j (row, e) = elim (Bool-cases (id == j)) [
    | inl q ↦ (redirected target row, ground (arith, get-redirect id target j nodes))
    | inr q ↦ (row, ground (arith, get-redirect id target j nodes))
  ]

  pub redirect-IsNode_back : (j : String) → IsNode (redirect id target nodes) j → IsNode nodes j
  redirect-IsNode_back j (row, e) = elim (Option-cases (get j nodes)) [
    | inl gone ↦ absurd (ground (arith, get-redirect id target j nodes))
    | inr found ↦ found
  ]

  -- What a node redirects to, after the redirect of `id`.
  pub redirect_cases :
      (j n : String) (row : NodeRow)
      → get j (redirect id target nodes) ≡ some row
      → row.merged_into ≡ some n
      → ((j ≡ id) × (n ≡ target)) ⊎ (get j nodes ≡ some row)
  redirect_cases j n row e m = elim (Bool-cases (id == j)) [
    | inl q ↦ inl (sym (eq_of_beq id j q), ground (arith, get-redirect id target j nodes))
    | inr q ↦ inr (ground (arith, get-redirect id target j nodes))
  ]

  pub redirect-RedirectsDown :
      RedirectsDown nodes
      → str_lt target id ≡ true
      → IsNode nodes target
      → RedirectsDown (redirect id target nodes)
  redirect-RedirectsDown r lt there = record {
    down = λ j n row e m. elim (redirect_cases j n row e m) [
      | inl (q, p) ↦ rw (q, p) lt
      | inr old ↦ r.down j n row old m
    ];
    target = λ j n row e m. redirect-IsNode n (elim (redirect_cases j n row e m) [
      | inl (q, p) ↦ rw p there
      | inr old ↦ r.target j n row old m
    ]);
  }
