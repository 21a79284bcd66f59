-- ===== src/Worker/Settled.antt =====
-- What a tick writes to the queue.
use braincrawl.Base.{
  ℕ, suc, ◌≤◌, ◌<◌, String, Bool, true, false, All, none, some, List, [], ◌∷◌, ◌++◌, length, ◌≡◌,
  ◌≢◌, ◌⊎◌, inl, inr, refl, sym, ap, ◌∙◌, arith, Elem, Option-cases, Bool-cases, find, leb, leb→le,
  append-nil, append_assoc,
}
use braincrawl.Types.{Job, DomainError, display, same_kind}
use braincrawl.Exec.{Result, ok, err, stuck}
use braincrawl.Store.{Outside}
use braincrawl.Worker.{BackoffPolicy, backoff}
use braincrawl.Worker.Timestamps.{add_secs_to_rfc3339}
use braincrawl.Worker.Tick.{
  JobQueue, FetchHandler, no_handler, handler_of, run_after, outcome, settle, settle_all, tick,
}

-- A call of the queue that settles a job.
pub data Verdict : Type 0 where
  done : Verdict
  again : String → String → Verdict
  gave_up : String → Verdict

abbrev pub Entry : Type 0
Entry = String × Verdict

-- A method that ends without a failure and adds to the journal.
pub record Writes {S : Type 0} (journal : S → List Entry) (out : Result {0} (Unit {0}) × S) (s : S)
    (added : List Entry) : Type 0 where
  pub after : S
  pub returns : out ≡ (ok tt, after)
  pub writes : journal after ≡ journal s ++ added

-- What a handler may do: return or fail, and leave the queue alone.
pub record Handles {S : Type 0} (journal : S → List Entry) (out : Result {0} (Unit {0}) × S) (s : S)
    : Type 0 where
  pub result : Result {0} (Unit {0})
  pub after : S
  pub returns : out ≡ (result, after)
  pub ends : result ≢ stuck
  pub leaves : journal after ≡ journal s

-- What the queue, the lock and the handlers do with the calls that settle jobs.
pub record Journals {S : Type 0} (queue : JobQueue S) (outside : Outside S)
    (handlers : List (FetchHandler S)) : Type 0 where
  pub journal : S → List Entry
  pub claims :
      (limit : ℕ) (now : String) (s : S)
      → (jobs : List Job) × (after : S) × (queue.claim limit now s ≡ (ok jobs, after))
        × (journal after ≡ journal s)
  pub completes : (id : String) (s : S) → Writes journal (queue.complete id s) s ((id, done) ∷ [])
  pub retries :
      (id at e : String) (s : S) → Writes journal (queue.retry id at e s) s ((id, again at e) ∷ [])
  pub fails : (id e : String) (s : S) → Writes journal (queue.fail id e s) s ((id, gave_up e) ∷ [])
  pub locks : (key : String) (s : S) → Writes journal (outside.with_lock key s) s []
  pub handles :
      (h : FetchHandler S) (job : Job) (s : S)
      → Elem h handlers
      → Handles journal (h.handle job s) s

lt_of_leb : (a b : ℕ) → leb a b ≡ false → b < a
lt_of_leb a b h = ground arith

find-Elem :
    {A : Type 0} (p : A → Bool) (xs : List A) (x : A)
    → find p xs ≡ some x
    → Elem x xs × (p x ≡ true)
find-Elem p [] x h = absurd cc
find-Elem p (y ∷ ys) x h = elim (Bool-cases (p y)) [
  | inl t ↦ let same : y ≡ x = cc (rw t at h) in (inl (sym same), ap p (sym same) ∙ t)
  | inr f ↦ let (e, t) = find-Elem p ys x (rw f at h) in (inr e, t)
]

find-none : {A : Type 0} (p : A → Bool) (xs : List A) → find p xs ≡ none → All (λ x. p x ≡ false) xs
find-none p [] h = tt
find-none p (y ∷ ys) h = elim (Bool-cases (p y)) [
  | inl t ↦ cc (rw t at h)
  | inr f ↦ (f, find-none p ys (rw f at h))
]

module _ {S : Type 0} (queue : JobQueue S) (outside : Outside S) (handlers : List (FetchHandler S))
    (policy : BackoffPolicy) where
  -- The run of a job's handler under the lock on its target: a handler of the job's kind, what
  -- it returned, and the state that it left.
  pub record Runs (job : Job) (s : S) (result : Result {0} (Unit {0})) (t : S) : Type 0 where
    pub handler : FetchHandler S
    pub listed : Elem handler handlers
    pub kind : same_kind handler.kind job.kind ≡ true
    pub run : handler.handle job (outside.with_lock job.target_id s).1 ≡ (result, t)

  -- The call that a job asks for. A handler that returned: the job is completed. One that failed: the
  -- job is retried with its error after the backoff while attempts are left, and given up with its
  -- error where none is. No handler of the job's kind: it is given up.
  abbrev pub Fits : String → Job → S → S → Entry → Type 0
  Fits now job s after (id, done) =
      (id ≡ job.id) × (t : S) × Runs job s (ok tt) t × (queue.complete id t ≡ (ok tt, after))
  Fits now job s after (id, again at e) =
      (id ≡ job.id)
      × (f : DomainError) × (t : S) × Runs job s (err f) t
      × (suc job.attempts < policy.max_attempts)
      × (at ≡ add_secs_to_rfc3339 now (backoff job.attempts policy))
      × (e ≡ display f)
      × (queue.retry id at e t ≡ (ok tt, after))
  Fits now job s after (id, gave_up e) =
      (id ≡ job.id)
      × (((f : DomainError) × (t : S) × Runs job s (err f) t
            × (policy.max_attempts ≤ suc job.attempts)
            × (e ≡ display f)
            × (queue.fail id e t ≡ (ok tt, after)))
          ⊎ (All (λ (h : FetchHandler S). same_kind h.kind job.kind ≡ false) handlers
              × (queue.fail id e (outside.with_lock job.target_id s).1 ≡ (ok tt, after))))

  -- One entry for each job, in their order, each call from the state that the one before leaves.
  abbrev pub Settles : String → List Job → S → S → List Entry → Type 0
  Settles now [] s after [] = s ≡ after
  Settles now (job ∷ jobs) s after (e ∷ es) =
      (mid : S) × Fits now job s mid e × Settles now jobs mid after es
  Settles now _ s after _ = ⊥

  pub record Ticks (batch : ℕ) (j : Journals queue outside handlers) (s : S) : Type 0 where
    pub jobs : List Job
    pub after : S
    pub entries : List Entry
    pub start : S
    pub claimed : queue.claim batch (outside.now_rfc3339 s) s ≡ (ok jobs, start)
    pub returns : tick queue outside handlers policy batch s ≡ (ok (length jobs), after)
    pub journal : j.journal after ≡ j.journal s ++ entries
    pub settles : Settles (outside.now_rfc3339 s) jobs start after entries

  -- One job: the calls made from `from` on are one entry that fits it.
  record Settled (j : Journals queue outside handlers) (now : String) (job : Job) (from : S)
      (out : Result {0} (Unit {0}) × S) : Type 0 where
    entry : Entry
    call : Writes j.journal out from (entry ∷ [])
    fits : Fits now job from call.after entry

  outcome-Settled :
      (j : Journals queue outside handlers) (now : String) (job : Job) (from s : S)
      → j.journal s ≡ j.journal from
      → (r : Result {0} (Unit {0})) → Runs job from r s
      → r ≢ stuck
      → Settled j now job from (outcome queue outside handlers policy now job (r, s))
  unfolding outcome
  outcome-Settled j now job from s same (ok u) run ends =
      let call = j.completes job.id s in
      record {
        entry = (job.id, done);
        call = record {
          after = call.after;
          returns = call.returns;
          writes = call.writes ∙ ap (λ x. x ++ (job.id, done) ∷ []) same;
        };
        fits = (refl, s, run, call.returns);
      }
  outcome-Settled j now job from s same (err e) run ends =
      elim (Bool-cases (leb policy.max_attempts (suc job.attempts))) [
        | inl t ↦
            let call = j.fails job.id (display e) s in
            record {
              entry = (job.id, gave_up (display e));
              call = record {
                after = call.after;
                returns = rw t call.returns;
                writes = call.writes ∙ ap (λ x. x ++ (job.id, gave_up (display e)) ∷ []) same;
              };
              fits = (
                refl,
                inl (
                  e,
                  s,
                  run,
                  leb→le policy.max_attempts (suc job.attempts) t,
                  refl,
                  call.returns,
                ),
              );
            }
        | inr f ↦
            let at = run_after queue outside handlers policy now job in
            let call = j.retries job.id at (display e) s in
            record {
              entry = (job.id, again at (display e));
              call = record {
                after = call.after;
                returns = rw f call.returns;
                writes = call.writes ∙ ap (λ x. x ++ (job.id, again at (display e)) ∷ []) same;
              };
              fits = (
                refl,
                e,
                s,
                run,
                lt_of_leb policy.max_attempts (suc job.attempts) f,
                refl,
                refl,
                call.returns,
              );
            }
      ]
  outcome-Settled j now job from s same stuck run ends = absurd (ends refl)

  settle-Settled :
      (j : Journals queue outside handlers) (now : String) (job : Job) (s : S)
      → Settled j now job s (settle queue outside handlers policy now job s)
  unfolding settle
  settle-Settled j now job s =
      let lock = j.locks job.target_id s in
      let free = lock.writes ∙ append-nil (j.journal s) in
      let locked : (outside.with_lock job.target_id s).1 ≡ lock.after =
        ap (λ x. x.1) lock.returns in
      let of_kind = λ (x : FetchHandler S). same_kind x.kind job.kind in
      elim (Option-cases (handler_of queue outside handlers policy job)) [
        | inl nobody ↦
            let call = j.fails job.id (no_handler job) lock.after in
            record {
              entry = (job.id, gave_up (no_handler job));
              call = record {
                after = call.after;
                returns = rw lock.returns (rw nobody call.returns);
                writes = call.writes ∙ ap (λ x. x ++ (job.id, gave_up (no_handler job)) ∷ []) free;
              };
              fits = (
                refl,
                inr (
                  find-none of_kind handlers nobody,
                  ap (queue.fail job.id (no_handler job)) locked ∙ call.returns,
                ),
              );
            }
        | inr (h, found) ↦
            let there = find-Elem of_kind handlers h found in
            let run = j.handles h job lock.after there.0 in
            let one =
              outcome-Settled j now job s run.after (run.leaves ∙ free) run.result
                (record {
                  handler = h;
                  listed = there.0;
                  kind = there.1;
                  run = ap (h.handle job) locked ∙ run.returns;
                })
                run.ends in
            record {
              entry = one.entry;
              call = record {
                after = one.call.after;
                returns = rw lock.returns (rw found (rw run.returns one.call.returns));
                writes = one.call.writes;
              };
              fits = one.fits;
            }
      ]

  -- All the jobs that were claimed.
  record SettledAll (j : Journals queue outside handlers) (now : String) (jobs : List Job) (s : S)
      : Type 0 where
    entries : List Entry
    call : Writes j.journal (settle_all queue outside handlers policy now jobs s) s entries
    fits : Settles now jobs s call.after entries

  settle_all-SettledAll :
      (j : Journals queue outside handlers) (now : String) (jobs : List Job) (s : S)
      → SettledAll j now jobs s
  unfolding settle_all
  settle_all-SettledAll j now [] s = record {
    entries = [];
    call = record { after = s; returns = refl; writes = sym (append-nil (j.journal s)) };
    fits = refl;
  }
  settle_all-SettledAll j now (job ∷ jobs) s =
      let one = settle-Settled j now job s in
      let rest = settle_all-SettledAll j now jobs one.call.after in
      record {
        entries = one.entry ∷ rest.entries;
        call = record {
          after = rest.call.after;
          returns = rw one.call.returns rest.call.returns;
          writes =
              rest.call.writes
              ∙ ap (λ x. x ++ rest.entries) one.call.writes
              ∙ append_assoc (j.journal s) (one.entry ∷ []) rest.entries;
        };
        fits = (one.call.after, one.fits, rest.fits);
      }

  -- Where the queue keeps a journal of the calls that settle jobs, the lock is granted, and every
  -- handler returns or fails without settling a job itself, a tick ends without a failure and
  -- returns the number of jobs claimed; it adds one entry for each job, in their order, each for a call
  -- made from the state that the one before leaves: a job is completed where a handler of its kind
  -- returned, retried with the handler's error after the backoff where it failed and attempts are
  -- left, and given up where it failed and none is left or where no handler has its kind.
  pub tick-Ticks : (batch : ℕ) (j : Journals queue outside handlers) (s : S) → Ticks batch j s
  unfolding tick
  tick-Ticks batch j s =
      let now = outside.now_rfc3339 s in
      let (jobs, claimed, returns, same) = j.claims batch now s in
      let all = settle_all-SettledAll j now jobs claimed in
      record {
        jobs = jobs;
        after = all.call.after;
        entries = all.entries;
        start = claimed;
        claimed = returns;
        returns = rw returns (rw all.call.returns refl);
        journal = all.call.writes ∙ ap (λ x. x ++ all.entries) same;
        settles = all.fits;
      }
