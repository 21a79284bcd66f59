-- ===== src/Worker/Examples.antt =====
-- The worker on a queue that is a journal, with two jobs and one handler.
use braincrawl.Base.{
  ◌≤◌, ◌<◌, ◌*◌, ◌/◌, ◌^◌, List, [], ◌∷◌, ◌++◌, ◌≡◌, refl, append-nil, sym, arith, inl, inr,
}
use braincrawl.Types.{Job, fulltext_job, refs_job, null, not_found}
use braincrawl.Exec.{ok, err}
use braincrawl.Store.{Outside}
use braincrawl.Worker.{BackoffPolicy, backoff, cap}
use braincrawl.Worker.Backoff.{backoff-delay}
use braincrawl.Worker.Calendar.{IsDate, days_to_ymd, days_to_ymd-IsDate}
use braincrawl.Worker.Tick.{JobQueue, FetchHandler}
use braincrawl.Worker.Settled.{Entry, done, again, gave_up, Journals, Ticks, tick-Ticks}

abbrev policy : BackoffPolicy
policy = record { max_attempts = 3; base_secs = 7; factor = 2 }

abbrev long_base : BackoffPolicy
long_base = record { max_attempts = 3; base_secs = 7200; factor = 2 }

abbrev fulltext_twice : Job
fulltext_twice = record {
  id = "1";
  kind = fulltext_job;
  target_id = "a";
  params = null;
  attempts = 1;
}

abbrev refs_once : Job
refs_once = record { id = "2"; kind = refs_job; target_id = "b"; params = null; attempts = 0 }

abbrev queue : JobQueue (List Entry)
queue = record {
  claim = λ limit now s. (ok (fulltext_twice ∷ refs_once ∷ []), s);
  complete = λ id s. (ok tt, s ++ (id, done) ∷ []);
  retry = λ id at e s. (ok tt, s ++ (id, again at e) ∷ []);
  fail = λ id e s. (ok tt, s ++ (id, gave_up e) ∷ []);
}

abbrev outside : Outside (List Entry)
outside = record {
  now_rfc3339 = λ s. "2024-01-01T00:00:00Z";
  new_guid = λ s. "z";
  with_lock = λ k s. (ok tt, s);
}

abbrev never_found : FetchHandler (List Entry)
never_found = record { kind = fulltext_job; handle = λ job s. (err not_found, s) }

journals : Journals queue outside (never_found ∷ [])
journals = record {
  journal = λ s. s;
  claims = λ limit now s. (fulltext_twice ∷ refs_once ∷ [], s, refl, refl);
  completes = λ id s. record { after = s ++ (id, done) ∷ []; returns = refl; writes = refl };
  retries =
      λ id at e s. record { after = s ++ (id, again at e) ∷ []; returns = refl; writes = refl };
  fails = λ id e s. record { after = s ++ (id, gave_up e) ∷ []; returns = refl; writes = refl };
  locks = λ key s. record { after = s; returns = refl; writes = sym (append-nil s) };
  handles = λ h job s there. elim there [
    | inl q ↦ rw q (record {
      result = err not_found;
      after = s;
      returns = refl;
      ends = λ e. cc;
      leaves = refl;
    })
    | inr gone ↦ absurd gone
  ];
}

tick-Ticks_example : Ticks queue outside (never_found ∷ []) policy 5 journals []
tick-Ticks_example = tick-Ticks queue outside (never_found ∷ []) policy 5 journals []

backoff-delay_example :
    (backoff 2 policy ≤ cap)
    × (7 * 2 ^ 2 ≤ cap → backoff 2 policy ≡ 7 * 2 ^ 2)
    × (cap < 7 * 2 ^ 2
        → 7 ≤ cap
        → (backoff 2 policy ≡ 7 * (cap / 7)) × (cap < 2 * backoff 2 policy))
    × (cap < 7 → backoff 2 policy ≡ 0)
backoff-delay_example = backoff-delay 2 policy (omega arith)

days_to_ymd-IsDate_example :
    IsDate (days_to_ymd 19782).0 (days_to_ymd 19782).1 (days_to_ymd 19782).2 19782
days_to_ymd-IsDate_example = days_to_ymd-IsDate 19782
