-- ===== src/Resilience/Tests.antt =====
-- Concrete breakers and retries: the theorems of this folder at inputs that meet their hypotheses.
use hakawi.Common.{
  ℕ, zero, suc, ◌+◌, ◌≤◌, ◌<◌, ◌≡◌, refl, true, false, Option, none, some, List, [], ◌∷◌, arith,
  length, All, String,
}
use hakawi.Resilience.Breaker.{
  closed, open_state, half_open, StateRecord, Breaker, initial_state, returned, thrown,
  rejected_error, value, or_fallback, execute, begin_state, success_state, failure_state,
}
use hakawi.Resilience.Breaker
use hakawi.Resilience.Retry
use hakawi.Resilience.Breaker.Interleaving.{
  Flight, starts, succeeds, Reach, here, next, IsConsistent, idle, Reach-IsConsistent,
}
use hakawi.Resilience.Breaker.Recovery.{
  Use, run, times, IsOpenSince, IsClosed, open_rejects, recovers, trips,
}
use hakawi.Resilience.Retry.{Attempt, resolves, rejects, Outcome, value, throws, Run, get_config}
use hakawi.Resilience.Retry.Laws.{
  execute_bounded, execute_resolves, execute_throws, IsTransient, Ends,
}

abbrev one_done : Flight
one_done = record {
  record_ = record initial_state {
    total_calls = 1;
    total_successes = 1;
    last_success_time = some 5;
  };
  running = 0;
}

abbrev one_running : Flight
one_running = record { record_ = record initial_state { total_calls = 1 }; running = 1 }

one_done_reached : Reach Breaker.default_config idle one_done
unfolding begin_state success_state
one_done_reached =
    let begun : Reach Breaker.default_config idle one_running =
      next here (starts 4 (omega arith) refl refl) in
    next begun (succeeds 5 0 (omega arith) refl refl)

Reach-IsConsistent_example : IsConsistent Breaker.default_config one_done
Reach-IsConsistent_example =
    Reach-IsConsistent Breaker.default_config one_done (omega arith) (omega arith) one_done_reached

abbrev opened : Breaker
opened = record {
  memory = some (record initial_state { state = open_state; last_failure_time = some 1000 });
  cached = none;
  ttl_seconds = 0;
}

abbrev good : ℕ → Use ℕ
good t = record { now = t; later = t + 1; call = returned 7 }

abbrev bad : ℕ → Use ℕ
bad t = record { now = t; later = t + 1; call = thrown }

open_rejects_example :
    ((run Breaker.default_config false (good 1001 ∷ bad 30999 ∷ []) opened).0
      ≡ times 2 rejected_error)
    × IsOpenSince 1000 (run Breaker.default_config false (good 1001 ∷ bad 30999 ∷ []) opened).1
open_rejects_example =
    open_rejects Breaker.default_config false (good 1001 ∷ bad 30999 ∷ []) opened 1000 (refl, refl)
      (omega arith, (omega arith, tt))

recovers_example :
    IsClosed 0
      (run Breaker.default_config false (good 31000 ∷ good 31005 ∷ good 31010 ∷ []) opened).1
recovers_example =
    recovers Breaker.default_config false (good 31005 ∷ good 31010 ∷ []) (good 31000) opened 1000
      (refl, refl) (omega arith) (omega arith) refl (tt, (tt, (tt, tt)))

abbrev fresh : Breaker
fresh = record { memory = some initial_state; cached = none; ttl_seconds = 0 }

abbrev four_bad : List (Use ℕ)
four_bad = bad 1 ∷ bad 2 ∷ bad 3 ∷ bad 4 ∷ []

trips_example :
    IsClosed 4 (run Breaker.default_config true four_bad fresh).1
    × IsOpenSince 10
        (execute {A = ℕ} Breaker.default_config 9 10 true thrown
          (run Breaker.default_config true four_bad fresh).1).1
trips_example =
    trips Breaker.default_config true four_bad (bad 9) fresh (refl, refl) refl
      (refl, (refl, (refl, (refl, tt)))) refl

abbrev third_time : ℕ → Attempt String ℕ
third_time zero = rejects "down"
third_time (suc zero) = rejects "down"
third_time (suc (suc _)) = resolves 42

abbrev refused : ℕ → Attempt String ℕ
refused _ = rejects "refused"

execute_bounded_example :
    let r = Retry.execute none third_time (λ _. 5) none in
    (r.calls ≤ 4) × (length r.sleeps + 1 ≡ r.calls) × All (λ d. d ≤ 10500) r.sleeps
execute_bounded_example = execute_bounded none third_time (λ _. 5) none (λ i. omega arith)

third_time-IsTransient :
    (i : ℕ) → i < 2 → IsTransient Retry.default_config third_time (λ _. 5) none i
third_time-IsTransient zero l = record { error = "down"; failed = refl; wanted = refl }
third_time-IsTransient (suc zero) l = record { error = "down"; failed = refl; wanted = refl }
third_time-IsTransient (suc (suc i)) l = ground (arith, l)

execute_resolves_example :
    ((Retry.execute none third_time (λ _. 5) none).outcome ≡ value 42)
    × ((Retry.execute none third_time (λ _. 5) none).calls ≡ 3)
execute_resolves_example =
    execute_resolves none third_time (λ _. 5) none 2 42 (omega arith) third_time-IsTransient refl

abbrev refusal : Option String
refusal = some "refused"

execute_throws_example :
    (refusal ≡ refusal)
    × Ends Retry.default_config refused (λ _. 5) (some (λ _ _. false)) 0 (rejects "refused")
unfolding Retry.execute Retry.loop Retry.settle
execute_throws_example =
    execute_throws none refused (λ _. 5) (some (λ _ _. false)) 0 refusal refl refl
