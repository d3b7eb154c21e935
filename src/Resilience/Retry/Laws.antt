-- ===== src/Resilience/Retry/Laws.antt =====
-- What `execute` of retry.service.ts promises.
use native.Mathlib.Nat.{div-le_of_le-mul, mul-le-mul_right}
use hakawi.Common.{
  ℕ, zero, suc, ◌+◌, ◌*◌, ◌≤◌, ◌<◌, ◌≡◌, refl, ap, sym, Bool, true, false, Option, none, some,
  arith, length, All, eqb, Bool-cases, ◌⊎◌, inl, inr,
}
use hakawi.Resilience.Retry.{
  RetryConfig, get_config, calculate_delay, random_range, Attempt, resolves, rejects, value, throws,
  Run, wants_retry, error_of, settle, loop, execute,
}

at_or_before : (m n : ℕ) → m ≤ n → (m ≡ n) ⊎ (m < n)
at_or_before m n l = ground arith

module _ {E T : Type 0} (c : RetryConfig) (fn : ℕ → Attempt E T) (draw : ℕ → ℕ)
    (sr : Option (E → ℕ → Bool)) where
  -- The attempt fails with an error that is to be retried.
  pub record IsTransient (attempt : ℕ) : Type 0 where
    pub error : E
    pub failed : fn attempt ≡ rejects error
    pub wanted : wants_retry sr error attempt ≡ true

  -- The attempt fails, at the limit or with an error that is not to be retried.
  abbrev pub Ends : ℕ → Attempt E T → Type 0
  Ends attempt (resolves v) = ⊥
  Ends attempt (rejects e) = (attempt ≡ c.max_retries) ⊎ (wants_retry sr e attempt ≡ false)

  loop_success :
      (rounds attempt n : ℕ) (o : Option E) (v : T)
      → n ≤ c.max_retries
      → rounds + attempt ≡ c.max_retries + 1
      → attempt ≤ n
      → ((i : ℕ) → attempt ≤ i → i < n → IsTransient i)
      → fn n ≡ resolves v
      → ((loop c fn draw sr rounds attempt o).outcome ≡ value v)
        × ((loop c fn draw sr rounds attempt o).calls + attempt ≡ n + 1)
  unfolding loop settle
  loop_success zero attempt n o v l e m t r = ground (arith, l, e, m)
  loop_success (suc rounds) attempt n o v l e m t r = elim (at_or_before attempt n m) [
    | inl p ↦ ground (arith, r, ap fn p)
    | inr p ↦
        let here = t attempt (omega arith) p in
        ground (
          arith,
          here.failed,
          here.wanted,
          loop_success rounds (attempt + 1) n (error_of (fn attempt)) v l (omega (arith, e))
              (omega (arith, p)) (λ i j k. t i (omega (arith, j)) k) r,
        )
  ]

  ended :
      (attempt n : ℕ) (error : Option E) (e : E)
      → fn attempt ≡ rejects e
      → attempt ≡ n
      → error ≡ some e
      → (attempt ≡ c.max_retries) ⊎ (wants_retry sr e attempt ≡ false)
      → (error ≡ error_of (fn n)) × Ends n (fn n)
  ended attempt n error e f m g x = rw (sym m) (rw f (g, x))

  -- How the run ends when it throws, by what the first of its attempts does.
  settle_throws :
      (attempt n : ℕ) (a : Attempt E T) (rest : Run E T) (error : Option E)
      → fn attempt ≡ a
      → (settle c (draw attempt) sr attempt a rest).outcome ≡ throws error
      → (settle c (draw attempt) sr attempt a rest).calls + attempt ≡ n + 1
      → (attempt < c.max_retries
          → rest.outcome ≡ throws error
          → rest.calls + (attempt + 1) ≡ n + 1
          → (error ≡ error_of (fn n)) × Ends n (fn n))
      → attempt ≤ c.max_retries
      → (error ≡ error_of (fn n)) × Ends n (fn n)
  unfolding settle
  settle_throws attempt n (resolves v) rest error f h k later l = ground arith
  settle_throws attempt n (rejects e) rest error f h k later l =
      elim (Bool-cases (eqb attempt c.max_retries)) [
        | inl p ↦ ended attempt n error e f (ground arith) (ground arith) (inl (ground arith))
        | inr p ↦ elim (Bool-cases (wants_retry sr e attempt)) [
          | inl q ↦ later (ground arith) (ground arith) (ground arith)
          | inr q ↦ ended attempt n error e f (ground arith) (ground arith) (inr q)
        ]
      ]

  loop_throws :
      (rounds attempt n : ℕ) (o error : Option E)
      → rounds + attempt ≡ c.max_retries + 1
      → attempt ≤ c.max_retries
      → (loop c fn draw sr rounds attempt o).outcome ≡ throws error
      → (loop c fn draw sr rounds attempt o).calls + attempt ≡ n + 1
      → (error ≡ error_of (fn n)) × Ends n (fn n)
  unfolding loop
  loop_throws zero attempt n o error e l h k = ground (arith, e, l)
  loop_throws (suc rounds) attempt n o error e l h k =
      settle_throws attempt n (fn attempt) _ error refl h k
        (λ less.
          loop_throws rounds (attempt + 1) n (error_of (fn attempt)) error (omega (arith, e))
            (omega (arith, less)))
        l

  -- A pause is at most the longest delay and the jitter.
  delay_bounded :
      (attempt : ℕ)
      → draw attempt < random_range
      → calculate_delay (draw attempt) attempt c ≤ c.max_delay_ms + c.jitter_ms
  unfolding calculate_delay
  delay_bounded attempt l = ground (
    arith,
    div-le_of_le-mul random_range {m = draw attempt * c.jitter_ms} {n = c.jitter_ms}
        (mul-le-mul_right {m = draw attempt} {n = random_range} c.jitter_ms (omega (arith, l))),
  )

  loop_bounded :
      (rounds attempt : ℕ) (o : Option E)
      → rounds + attempt ≡ c.max_retries
      → ((i : ℕ) → draw i < random_range)
      → let r = loop c fn draw sr (rounds + 1) attempt o in
        (r.calls + attempt ≤ c.max_retries + 1)
        × (length r.sleeps + 1 ≡ r.calls)
        × All (λ d. d ≤ c.max_delay_ms + c.jitter_ms) r.sleeps
  unfolding loop settle
  loop_bounded zero attempt o e d = ground (arith, e, d attempt)
  loop_bounded (suc rounds) attempt o e d = ground (
    arith,
    e,
    delay_bounded attempt (d attempt),
    loop_bounded rounds (attempt + 1) (error_of (fn attempt)) (omega (arith, e)) d,
  )

-- When the random draws are in their range, `execute` makes at least one call and at most one more
-- than `maxRetries`, sleeps once between each two calls, and no pause is longer than `maxDelayMs` and
-- `jitterMs` together.
pub execute_bounded :
    {E T : Type 0} (entry : Option RetryConfig) (fn : ℕ → Attempt E T) (draw : ℕ → ℕ)
    (should_retry : Option (E → ℕ → Bool))
    → ((i : ℕ) → draw i < random_range)
    → let r = execute entry fn draw should_retry in
      let c = get_config entry in
      (r.calls ≤ c.max_retries + 1)
      × (length r.sleeps + 1 ≡ r.calls)
      × All (λ d. d ≤ c.max_delay_ms + c.jitter_ms) r.sleeps
unfolding execute
execute_bounded entry fn draw sr d = ground (
  arith,
  loop_bounded (get_config entry) fn draw sr (get_config entry).max_retries 0 none (omega arith) d,
)

-- When an attempt within the limit resolves and each attempt before it fails with an error that is to
-- be retried, `execute` returns the value of that attempt and makes no call after it.
pub execute_resolves :
    {E T : Type 0} (entry : Option RetryConfig) (fn : ℕ → Attempt E T) (draw : ℕ → ℕ)
    (should_retry : Option (E → ℕ → Bool)) (n : ℕ) (v : T)
    → n ≤ (get_config entry).max_retries
    → ((i : ℕ) → i < n → IsTransient (get_config entry) fn draw should_retry i)
    → fn n ≡ resolves v
    → ((execute entry fn draw should_retry).outcome ≡ value v)
      × ((execute entry fn draw should_retry).calls ≡ n + 1)
unfolding execute
execute_resolves entry fn draw sr n v l t r = ground (
  arith,
  loop_success (get_config entry) fn draw sr ((get_config entry).max_retries + 1) 0 n none v l
      (omega arith) (omega arith) (λ i a b. t i b) r,
)

-- When `execute` throws, then what it throws is the error of the last call that it made, and that call
-- was the last one allowed or its error was not to be retried.
pub execute_throws :
    {E T : Type 0} (entry : Option RetryConfig) (fn : ℕ → Attempt E T) (draw : ℕ → ℕ)
    (should_retry : Option (E → ℕ → Bool)) (n : ℕ) (error : Option E)
    → (execute entry fn draw should_retry).outcome ≡ throws error
    → (execute entry fn draw should_retry).calls ≡ n + 1
    → (error ≡ error_of (fn n)) × Ends (get_config entry) fn draw should_retry n (fn n)
unfolding execute
execute_throws entry fn draw sr n error h k =
    loop_throws (get_config entry) fn draw sr ((get_config entry).max_retries + 1) 0 n none error
      (omega arith) (omega arith) h (ground arith)
