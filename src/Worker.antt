-- ===== src/Worker.antt =====
-- The worker driver, crates/core/src/worker.rs: the backoff, and one tick of the queue. The dates
-- are in Worker/Calendar.
pub mod Calendar
pub mod Backoff
pub mod Timestamps
pub mod Tick
pub mod Settled
mod Examples
use braincrawl.Base.{ℕ, suc, ◌+◌, ◌*◌, ◌/◌, ◌-◌, ◌^◌, min, max}

pub record BackoffPolicy : Type 0 where
  pub max_attempts : ℕ
  pub base_secs : ℕ
  pub factor : ℕ

-- The largest `u64`, at which `saturating_pow` and `saturating_mul` stop.
abbrev pub u64_max : ℕ
u64_max = 2 ^ 64 - 1

abbrev pub cap : ℕ
cap = 3600

unfoldable pub backoff : ℕ → BackoffPolicy → ℕ
backoff attempts policy =
    let exp = min (min (policy.factor ^ attempts) u64_max) (cap / max policy.base_secs 1) in
    min (min (policy.base_secs * exp) u64_max) cap
