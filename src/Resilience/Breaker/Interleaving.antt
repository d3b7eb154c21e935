-- ===== src/Resilience/Breaker/Interleaving.antt =====
-- The steps of concurrent calls of `execute` in circuit-breaker.service.ts, in any order. The record is
-- in memory, and `reset`, which puts another record in its place while running calls keep the old one,
-- is no step. A call that half opens the breaker awaits the store before it is counted; here it is
-- counted at once.
use hakawi.Common.{ℕ, suc, ◌+◌, ◌<◌, ◌≡◌, Option, none, some, arith}
use hakawi.Resilience.Breaker.{
  closed, open_state, half_open, CircuitBreakerConfig, StateRecord, initial_state, admitted,
  rejected, begin, begin_state, succeed, success_state, fail, failure_state,
}

-- The record and the number of calls that have begun and not ended.
pub record Flight : Type 0 where
  pub record_ : StateRecord
  pub running : ℕ

module _ (c : CircuitBreakerConfig) where
  -- One step of one call at a time after the epoch.
  pub data Step (f g : Flight) : Type 0 where
    starts :
        (now : ℕ)
        → 0 < now
        → (begin c now f.record_).1 ≡ admitted
        → g ≡ record { record_ = (begin c now f.record_).0; running = f.running + 1 }
        → Step f g
    is_rejected :
        (now : ℕ)
        → 0 < now
        → (begin c now f.record_).1 ≡ rejected
        → g ≡ record { record_ = (begin c now f.record_).0; running = f.running }
        → Step f g
    succeeds :
        (now k : ℕ)
        → 0 < now
        → f.running ≡ suc k
        → g ≡ record { record_ = succeed c now f.record_; running = k }
        → Step f g
    fails :
        (now k : ℕ)
        → 0 < now
        → f.running ≡ suc k
        → g ≡ record { record_ = fail c now f.record_; running = k }
        → Step f g

  pub data Reach (f : Flight) : Flight → Type 0 where
    here : Reach f f
    next : {g h : Flight} → Reach f g → Step g h → Reach f h

-- A failure time that lets the breaker recover.
abbrev pub IsTimed : Option ℕ → Type 0
IsTimed none = ⊥
IsTimed (some t) = 0 < t

pub record IsConsistent (c : CircuitBreakerConfig) (f : Flight) : Type 0 where
  pub accounted :
      f.record_.total_calls ≡ f.record_.total_successes + f.record_.total_failures + f.running
  pub closed_below : f.record_.state ≡ closed → f.record_.failures < c.failure_threshold
  pub half_open_below : f.record_.state ≡ half_open → f.record_.successes < c.success_threshold
  pub open_timed : f.record_.state ≡ open_state → IsTimed f.record_.last_failure_time

abbrev pub idle : Flight
idle = record { record_ = initial_state; running = 0 }

Step-IsConsistent :
    (c : CircuitBreakerConfig) {f g : Flight}
    → 0 < c.failure_threshold
    → 0 < c.success_threshold
    → IsConsistent c f
    → Step c f g
    → IsConsistent c g
unfolding begin_state success_state failure_state
Step-IsConsistent c t u h (starts now p a e) = ground (arith, h)
Step-IsConsistent c t u h (is_rejected now p a e) = ground (arith, h)
Step-IsConsistent c t u h (succeeds now k p a e) = ground (arith, h)
Step-IsConsistent c t u h (fails now k p a e) = ground (arith, h)

idle-IsConsistent : (c : CircuitBreakerConfig) → 0 < c.failure_threshold → IsConsistent c idle
idle-IsConsistent c h = ground arith

Steps-IsConsistent :
    (c : CircuitBreakerConfig)
    → 0 < c.failure_threshold
    → 0 < c.success_threshold
    → {f g : Flight} → IsConsistent c f
    → Reach c f g
    → IsConsistent c g
Steps-IsConsistent c t u h here = h
Steps-IsConsistent c t u h (next r s) = Step-IsConsistent c t u (Steps-IsConsistent c t u h r) s

-- When both thresholds are positive, then after any steps of any number of overlapping calls at times
-- after the epoch, from the initial record on: the calls counted as made are the ones counted as
-- succeeded, the ones counted as failed and the ones still running; a closed breaker has counted fewer
-- failures than the failure threshold; a half open one fewer successes than the success threshold; an
-- open one remembers a time of a failure from which its recovery can be measured.
pub Reach-IsConsistent :
    (c : CircuitBreakerConfig) (g : Flight)
    → 0 < c.failure_threshold
    → 0 < c.success_threshold
    → Reach c idle g
    → IsConsistent c g
Reach-IsConsistent c g t u r = Steps-IsConsistent c t u (idle-IsConsistent c t) r
