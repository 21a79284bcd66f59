-- ===== src/Worker/Tick.antt =====
-- One tick of the worker: claim jobs, drive each through its handler, and settle it in the queue.
use Prim.Native.String.{◌++◌ as str_append}
use braincrawl.Base.{
  ℕ, suc, String, Option, none, some, List, [], ◌∷◌, find, length, leb, if◌then◌else◌,
}
use braincrawl.Types.{Job, JobKind, same_kind, debug_kind, display}
use braincrawl.Exec.{Result, ok, err, stuck, Exec, pure, gets, ◌>>=◌, ◌>>◌}
use braincrawl.Store.{Outside}
use braincrawl.Worker.{BackoffPolicy, backoff}
use braincrawl.Worker.Timestamps.{add_secs_to_rfc3339}

pub record JobQueue (S : Type 0) : Type 0 where
  pub claim : ℕ → String → Exec S (List Job)
  pub complete : String → Exec S Unit
  pub retry : String → String → String → Exec S Unit
  pub fail : String → String → Exec S Unit

pub record FetchHandler (S : Type 0) : Type 0 where
  pub kind : JobKind
  pub handle : Job → Exec S Unit

abbrev pub no_handler : Job → String
no_handler job = str_append "no handler for kind " (debug_kind job.kind)

module _ {S : Type 0} (queue : JobQueue S) (outside : Outside S) (handlers : List (FetchHandler S))
    (policy : BackoffPolicy) where
  abbrev pub handler_of : Job → Option (FetchHandler S)
  handler_of job = find (λ (h : FetchHandler S). same_kind h.kind job.kind) handlers

  abbrev pub run_after : String → Job → String
  run_after now job = add_secs_to_rfc3339 now (backoff job.attempts policy)

  -- The match on what the handler returned.
  unfoldable pub outcome : String → Job → Result {0} (Unit {0}) × S → Result {0} (Unit {0}) × S
  unfolding display backoff add_secs_to_rfc3339
  outcome now job (ok done, s) = queue.complete job.id s
  outcome now job (err e, s) =
      if leb policy.max_attempts (suc job.attempts)
      then queue.fail job.id (display e) s
      else queue.retry job.id (run_after now job) (display e) s
  outcome now job (stuck, s) = (stuck, s)

  unfoldable pub settle : String → Job → Exec S Unit
  unfolding outcome
  settle now job = do
    outside.with_lock job.target_id
    elim (handler_of job) [
      | none ↦ queue.fail job.id (no_handler job)
      | some h ↦ λ s. outcome now job (h.handle job s)
    ]

  unfoldable pub settle_all : String → List Job → Exec S Unit
  unfolding settle
  settle_all now [] = pure tt
  settle_all now (job ∷ jobs) = do settle now job; settle_all now jobs

  unfoldable pub tick : ℕ → Exec S ℕ
  unfolding settle_all
  tick batch = do
    now ← gets outside.now_rfc3339
    jobs ← queue.claim batch now
    settle_all now jobs
    pure (length jobs)
