-- ===== src/MemStore/Delete/Keeps.antt =====
-- What a deletion removes and what it keeps.
use braincrawl.Base.{
  String, refl, sym, count, length, length-map, ◌↔◌, Elem, ◌||◌, true, false, not, none, some, List,
  contains, ◌&&◌, ◌==◌, string_eq, pair_eq, triple_eq, if◌then◌else◌, ◌≡◌, ◌≢◌, inl, inr, ap, ◌∙◌,
  subst, arith, Option-cases, Bool-cases, Elem-contains, contains-Elem, not-Elem, not-contains,
  eq_of_beq, ne_of_beq,
}
use braincrawl.Base.Map.{get, entries, get-retain, retain_was, keep}
use braincrawl.Types.{Artifact, CanonicalId, DeletePlan}
use braincrawl.Exec.{ok}
use braincrawl.MemStore.{NodeRow, EdgeAssertions, EdgeKey, MemStoreInner}
use braincrawl.MemStore.Invariant.{IsLive, IsValid, Leads, stop, hop}
use braincrawl.MemStore.Delete.{
  network_rows, plan_of, planned, plan_delete_work, without_network, deleted, delete_work_network,
}
use braincrawl.MemStore.Delete.Closure.{IsNetwork, network_ids-IsNetwork}
use braincrawl.MemStore.Delete.Tables.{
  assertions_left, artifacts_left, edges_left, aliases_counted, edges_counted, keys_listed,
}
use braincrawl.MemStore.Resolve.{Leads-unique}

module _ (s : MemStoreInner) (id : CanonicalId) (net : List String)
    (w : IsNetwork s.nodes id net) where
  abbrev after : MemStoreInner
  after = without_network net s

  outside : (j : String) → not (contains net j) ≡ true → contains net j ≡ false
  outside j h = ground arith

  stays :
      (j : String) (row : NodeRow)
      → get j s.nodes ≡ some row
      → contains net j ≡ false
      → get j after.nodes ≡ some row
  unfolding without_network
  stays j row e out =
      ground (arith, get-retain (λ cid (r : NodeRow). not (contains net cid)) j s.nodes)

  was :
      (j : String) (row : NodeRow)
      → get j after.nodes ≡ some row
      → (get j s.nodes ≡ some row) × (contains net j ≡ false)
  unfolding without_network
  was j row e = ground (arith, get-retain (λ cid (r : NodeRow). not (contains net cid)) j s.nodes)

  stays-IsLive : (j : String) → IsLive s.nodes j → contains net j ≡ false → IsLive after.nodes j
  stays-IsLive j (row, e, m) out = (row, stays j row e out, m)

  -- The target of a redirect that stays is not in the network.
  target_outside :
      (j n : String) (row : NodeRow)
      → get j s.nodes ≡ some row
      → row.merged_into ≡ some n
      → contains net j ≡ false
      → contains net n ≡ false
  target_outside j n row e m out =
      not-contains net n (λ h. not-Elem net j out (w.complete j (hop row e m (w.sound n h))))

  -- A deletion keeps the store valid.
  pub without_network-IsValid : IsValid s → IsValid after
  unfolding without_network
  without_network-IsValid v = record {
    redirects = record {
      down = λ j n row e m. v.redirects.down j n row (was j row e).0 m;
      target = λ j n row e m.
          let (old, out) = was j row e in
          let (row', e') = v.redirects.target j n row old m in
          (row', stays n row' e' (target_outside j n row old m out));
    };
    owners = record {
      aliases = λ k j e.
          let (old, out) = retain_was (λ _ cid. not (contains net cid)) k j s.aliases e in
          stays-IsLive j (v.owners.aliases k j old) (outside j out);
      assertions = λ j source row e.
          let (old, out) =
            retain_was (λ (x : String × String) _. not (contains net x.0)) (j, source) row
              s.node_assertions e in
          stays-IsLive j (v.owners.assertions j source row old) (outside j out);
      edges = λ a b r row e.
          let (old, out) =
            retain_was (λ (x : EdgeKey) _. not (contains net x.0) && not (contains net x.1))
              (a, b, r) row s.edges e in
          let (l, m) = v.owners.edges a b r row old in
          (stays-IsLive a l (ground arith), stays-IsLive b m (ground arith));
      artifacts = λ j role rows e.
          let (old, out) =
            retain_was (λ (x : String × String) _. not (contains net x.0)) (j, role) rows
              s.artifacts e in
          stays-IsLive j (v.owners.artifacts j role rows old) (outside j out);
    };
  }

  -- No node that led to the deleted one is left.
  network_gone : (j : String) → Leads s.nodes j id → get j after.nodes ≡ none
  unfolding without_network
  network_gone j l = elim (Option-cases (get j after.nodes)) [
    | inl gone ↦ gone
    | inr (row, e) ↦ absurd (not-Elem net j (was j row e).1 (w.complete j l))
  ]

  -- A node that does not lead to the deleted one is as it was.
  node_kept : (j : String) → ¬ Leads s.nodes j id → get j after.nodes ≡ get j s.nodes
  unfolding without_network
  node_kept j out =
      let away = not-contains net j (λ h. out (w.sound j h)) in
      get-retain (λ cid (r : NodeRow). not (contains net cid)) j s.nodes
      ∙ elim (Option-cases (get j s.nodes)) [
        | inl gone ↦ rw gone refl
        | inr (row, e) ↦ rw (e, away) refl
      ]

  -- A node that leads elsewhere still does.
  others_lead : {j root : String} → Leads s.nodes j root → root ≢ id → Leads after.nodes j root
  others_lead {j} {root} l ne = elim (Bool-cases (contains net j)) [
    | inl t ↦ absurd (ne (Leads-unique l (w.sound j (Elem-contains net j t))))
    | inr out ↦ kept l out
  ]
    where
      kept :
          {j root : String}
          → Leads s.nodes j root
          → contains net j ≡ false
          → Leads after.nodes j root
      kept (stop {id = x} l) out = stop (stays-IsLive x l out)
      kept (hop {id = x} {n = n} row e m rest) out =
          hop row (stays x row e out) m (kept rest (target_outside x n row e m out))

  -- Of the live nodes, the network holds only the deleted one.
  live_in_network : (cid : String) → IsLive s.nodes cid → contains net cid ≡ (cid == id)
  live_in_network cid l = elim (Bool-cases (cid == id)) [
    | inl q ↦
        let same : cid ≡ id = eq_of_beq cid id q in
        rw q (contains-Elem net cid (w.complete cid (subst (Leads s.nodes cid) same (stop l))))
    | inr q ↦
        rw q
          (not-contains net cid (λ h. ne_of_beq cid id q (Leads-unique (stop l) (w.sound cid h))))
  ]

  -- An alias stays unless it names the deleted node.
  alias_kept :
      IsValid s
      → (k : String × String)
      → get k after.aliases ≡ keep (λ cid. not (cid == id)) (get k s.aliases)
  unfolding without_network
  alias_kept v k =
      get-retain (λ _ cid. not (contains net cid)) k s.aliases
      ∙ elim (Option-cases (get k s.aliases)) [
        | inl gone ↦ rw gone
        | inr (cid, e) ↦ rw e (
            ap (λ b. if not b then some cid else none)
              (live_in_network cid (v.owners.aliases k cid e)))
      ]

-- The work's rows that a plan counts, and the keys of its files.
pub record Plans (s : MemStoreInner) (id : CanonicalId) (plan : DeletePlan) : Type 0 where
  pub network : IsNetwork s.nodes id plan.network
  pub aliases :
      plan.alias_count ≡ count (λ (e : (String × String) × String). e.1 == id) (entries s.aliases)
  pub edges :
      plan.edge_count
      ≡ count (λ (e : EdgeKey × EdgeAssertions). (e.0.0 == id) || (e.0.1 == id)) (entries s.edges)
  pub artifacts : plan.artifact_count ≡ length plan.r2_keys
  pub keys :
      (key : String)
      → Elem key plan.r2_keys ↔ (
          (role : String) × (rows : List Artifact) × (d : Artifact) × (get (id, role) s.artifacts
            ≡ some rows)
          × Elem d rows
          × (d.r2_key ≡ key))

-- A deletion of a live work.
pub record Deletes (s : MemStoreInner) (id : CanonicalId) : Type 0 where
  pub plan : DeletePlan
  pub planned : plan_delete_work id s ≡ (ok plan, s)
  pub plans : Plans s id plan
  pub after : MemStoreInner
  pub deleted : delete_work_network id s ≡ (ok plan.r2_keys, after)
  pub valid : IsValid after
  pub gone : (j : String) → Leads s.nodes j id → get j after.nodes ≡ none
  pub others : (j root : String) → Leads s.nodes j root → root ≢ id → Leads after.nodes j root
  pub nodes : (j : String) → ¬ Leads s.nodes j id → get j after.nodes ≡ get j s.nodes
  pub aliases :
      (k : String × String) → get k after.aliases ≡ keep (λ cid. not (cid == id)) (get k s.aliases)
  pub assertions :
      (j source : String)
      → get (j, source) after.node_assertions
        ≡ (if j == id then none else get (j, source) s.node_assertions)
  pub artifacts :
      (j role : String)
      → get (j, role) after.artifacts ≡ (if j == id then none else get (j, role) s.artifacts)
  pub edges :
      (a b r : String)
      → get (a, b, r) after.edges ≡ (if (a == id) || (b == id) then none else get (a, b, r) s.edges)

-- In a valid store, the deletion of a live work ends: it leaves a valid store without the nodes
-- that led to the work, with all other nodes and their representatives, and of the aliases, the
-- assertions, the files and the edges with exactly those that did not name, belong to or end in the
-- work. It returns the keys of the plan. Planning changes nothing: it lists exactly those nodes and
-- the keys of the work's files, and counts its aliases, its files and the edges that end in it.
pub delete_work_network-Deletes :
    (s : MemStoreInner) (id : CanonicalId) → IsValid s → IsLive s.nodes id → Deletes s id
unfolding plan_delete_work delete_work_network plan_of
delete_work_network-Deletes s id v l =
    let (net, found, w) = network_ids-IsNetwork s.nodes id l in
    let lives = live_in_network s id net w in
    let has = contains-Elem net id (w.complete id (stop l)) in
    record {
      plan = plan_of s net;
      planned = ap (planned s) found;
      plans = record {
        network = w;
        aliases = aliases_counted s v id net has lives;
        edges = edges_counted s v id net has lives;
        artifacts = sym (length-map _ (network_rows net (entries s.artifacts)));
        keys = keys_listed s v id net has lives;
      };
      after = without_network net s;
      deleted = ap (deleted s) found;
      valid = without_network-IsValid s id net w v;
      gone = network_gone s id net w;
      others = λ j root. others_lead s id net w;
      nodes = λ j out. node_kept s id net w j out;
      aliases = alias_kept s id net w v;
      assertions = assertions_left s v id net has lives;
      artifacts = artifacts_left s v id net has lives;
      edges = edges_left s v id net has lives;
    }
