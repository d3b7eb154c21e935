-- ===== src/Resilience/Breaker/Recovery.antt =====
-- What a breaker does over a sequence of calls of `execute` in circuit-breaker.service.ts, one after
-- the other: it opens, rejects, tries again and closes.
use hakawi.Common.{
  ℕ, zero, suc, ◌+◌, ◌≤◌, ◌<◌, ◌≡◌, refl, Bool, Option, none, some, List, [], ◌∷◌, arith, length,
  All,
}
use hakawi.Resilience.Breaker.{
  closed, open_state, half_open, CircuitBreakerConfig, StateRecord, Breaker, Call, returned, thrown,
  Reply, rejected_error, or_fallback, execute, current, current_in, run_admitted, finish,
  persist_state, begin_state, success_state, failure_state,
}

-- One use of the breaker: the time before the call, the time after it, and what the call does.
pub record Use (A : Type 0) : Type 0 where
  pub now : ℕ
  pub later : ℕ
  pub call : Call A

unfoldable pub run :
    {A : Type 0} → CircuitBreakerConfig → Bool → List (Use A) → Breaker → List (Reply A) × Breaker
run c has_fallback [] b = ([], b)
run c has_fallback (u ∷ us) b =
    let (r, b') = execute c u.now u.later has_fallback u.call b in
    let (rs, b'') = run c has_fallback us b' in (r ∷ rs, b'')

abbrev pub IsBefore : {A : Type 0} → ℕ → Use A → Type 0
IsBefore limit u = u.now < limit

abbrev pub IsReturned : {A : Type 0} → Call A → Type 0
IsReturned (returned a) = Unit
IsReturned thrown = ⊥

-- What holds of the record in memory, when there is one.
abbrev pub In : (StateRecord → Type 0) → Option StateRecord → Type 0
In P none = ⊥
In P (some s) = P s

-- The breaker has been open since a failure at this time.
abbrev pub IsOpenSince : ℕ → Breaker → Type 0
IsOpenSince t b = In (λ s. (s.state ≡ open_state) × (s.last_failure_time ≡ some t)) b.memory

-- The breaker is half open and has counted this many successes.
abbrev pub IsTrying : ℕ → Breaker → Type 0
IsTrying k b = In (λ s. (s.state ≡ half_open) × (s.successes ≡ k)) b.memory

-- The breaker is closed and has counted this many failures in a row.
abbrev pub IsClosed : ℕ → Breaker → Type 0
IsClosed k b = In (λ s. (s.state ≡ closed) × (s.failures ≡ k)) b.memory

abbrev pub times : {A : Type 0} → ℕ → A → List A
times zero a = []
times (suc n) a = a ∷ times n a

module _ {A : Type 0} (c : CircuitBreakerConfig) (fb : Bool) where
  abbrev after : Use A → Breaker → Reply A × Breaker
  after u b = execute c u.now u.later fb u.call b

  execute_open :
      (u : Use A) (b : Breaker) (t : ℕ)
      → IsOpenSince t b
      → u.now < t + c.recovery_timeout_ms
      → ((after u b).0 ≡ or_fallback fb rejected_error) × IsOpenSince t (after u b).1
  unfolding execute current current_in begin_state run_admitted persist_state
  execute_open u b t h l = ground (arith, h)

  -- The first use after the recovery timeout.
  execute_recovering :
      (u : Use A) (b : Breaker) (t : ℕ)
      → IsOpenSince t b
      → 0 < t
      → t + c.recovery_timeout_ms ≤ u.now
      → 1 < c.success_threshold
      → IsReturned u.call
      → IsTrying 1 (after u b).1
  unfolding execute current current_in begin_state run_admitted persist_state finish success_state
  execute_recovering u b t h p l m r = ground (arith, h)

  execute-IsTrying :
      (u : Use A) (b : Breaker) (k : ℕ)
      → IsTrying k b
      → k + 1 < c.success_threshold
      → IsReturned u.call
      → IsTrying (k + 1) (after u b).1
  unfolding execute current current_in begin_state run_admitted persist_state finish success_state
  execute-IsTrying u b k h l r = ground (arith, h)

  execute_closing :
      (u : Use A) (b : Breaker) (k : ℕ)
      → IsTrying k b
      → c.success_threshold ≤ k + 1
      → IsReturned u.call
      → IsClosed 0 (after u b).1
  unfolding execute current current_in begin_state run_admitted persist_state finish success_state
  execute_closing u b k h l r = ground (arith, h)

  execute_failing :
      (u : Use A) (b : Breaker) (k : ℕ)
      → IsClosed k b
      → k + 1 < c.failure_threshold
      → u.call ≡ thrown
      → IsClosed (k + 1) (after u b).1
  unfolding execute current current_in begin_state run_admitted persist_state finish failure_state
  execute_failing u b k h l r = ground (arith, h)

  execute_tripping :
      (u : Use A) (b : Breaker) (k : ℕ)
      → IsClosed k b
      → c.failure_threshold ≤ k + 1
      → u.call ≡ thrown
      → IsOpenSince u.later (after u b).1
  unfolding execute current current_in begin_state run_admitted persist_state finish failure_state
  execute_tripping u b k h l r = ground (arith, h)

  execute_reclosing :
      (u : Use A) (b : Breaker) (t : ℕ)
      → IsOpenSince t b
      → 0 < t
      → t + c.recovery_timeout_ms ≤ u.now
      → c.success_threshold ≤ 1
      → IsReturned u.call
      → IsClosed 0 (after u b).1
  unfolding execute current current_in begin_state run_admitted persist_state finish success_state
  execute_reclosing u b t h p l m r = ground (arith, h)

  run_probing :
      (us : List (Use A)) (u : Use A) (b : Breaker) (k : ℕ)
      → IsTrying k b
      → c.success_threshold ≡ k + length (u ∷ us)
      → All (λ v. IsReturned v.call) (u ∷ us)
      → IsClosed 0 (run c fb (u ∷ us) b).1
  unfolding run
  run_probing [] u b k h e (r, rs) = execute_closing u b k h (omega (arith, e)) r
  run_probing (v ∷ us) u b k h e (r, rs) =
      run_probing us v (after u b).1 (k + 1) (execute-IsTrying u b k h (omega (arith, e)) r)
        (omega (arith, e)) rs

  -- While the recovery timeout since the last failure has not passed, an open breaker answers each use
  -- of a sequence with the fallback or the rejection, whatever the wrapped functions would have done,
  -- and stays open with the time of that failure.
  pub open_rejects :
      (us : List (Use A)) (b : Breaker) (t : ℕ)
      → IsOpenSince t b
      → All (IsBefore (t + c.recovery_timeout_ms)) us
      → ((run c fb us b).0 ≡ times (length us) (or_fallback fb rejected_error))
        × IsOpenSince t (run c fb us b).1
  unfolding run
  open_rejects [] b t h a = (refl, h)
  open_rejects (u ∷ us) b t h (l, a) =
      let step = execute_open u b t h l in
      let rest = open_rejects us (after u b).1 t step.1 a in (cc (step.0, rest.0), rest.1)

  -- An open breaker whose recovery timeout has passed closes, with no failure counted, when the next
  -- uses, as many as the success threshold asks for, all return.
  pub recovers :
      (us : List (Use A)) (u : Use A) (b : Breaker) (t : ℕ)
      → IsOpenSince t b
      → 0 < t
      → t + c.recovery_timeout_ms ≤ u.now
      → c.success_threshold ≡ length (u ∷ us)
      → All (λ v. IsReturned v.call) (u ∷ us)
      → IsClosed 0 (run c fb (u ∷ us) b).1
  unfolding run
  recovers [] u b t h p l e (r, rs) = execute_reclosing u b t h p l (omega (arith, e)) r
  recovers (v ∷ us) u b t h p l e (r, rs) =
      run_probing us v (after u b).1 1 (execute_recovering u b t h p l (omega (arith, e)) r)
        (omega (arith, e)) rs

  run_failing :
      (us : List (Use A)) (b : Breaker) (k : ℕ)
      → IsClosed k b
      → k + length us < c.failure_threshold
      → All (λ v. v.call ≡ thrown) us
      → IsClosed (k + length us) (run c fb us b).1
  unfolding run
  run_failing [] b k h l a = ground (arith, h)
  run_failing (u ∷ us) b k h l (e, a) = ground (
    arith,
    run_failing us (after u b).1 (k + 1) (execute_failing u b k h (omega (arith, l)) e)
        (omega (arith, l)) a,
  )

  -- A closed breaker with no failure counted stays closed and counts each failure while fewer uses
  -- than the failure threshold have thrown one after the other; the use that reaches the threshold
  -- opens it, at the time after that call.
  pub trips :
      (us : List (Use A)) (u : Use A) (b : Breaker)
      → IsClosed 0 b
      → c.failure_threshold ≡ length us + 1
      → All (λ v. v.call ≡ thrown) us
      → u.call ≡ thrown
      → IsClosed (length us) (run c fb us b).1 × IsOpenSince u.later (after u (run c fb us b).1).1
  trips us u b h e a r = ground (
    arith,
    run_failing us b 0 h (omega (arith, e)) a,
    execute_tripping u (run c fb us b).1 (length us),
  )
