-- ===== src/Resilience/Retry.antt =====
-- backend/src/common/resilience/retry.service.ts: one operation name, its configuration, and the loop
-- of calls and pauses.
pub mod Laws
use hakawi.Common.{
  ℕ, zero, suc, ◌+◌, ◌*◌, ◌/◌, ◌^◌, ◌≤◌, ◌<◌, ◌≡◌, refl, Bool, true, false, Option, none, some,
  List, [], ◌∷◌, arith, length, All, eqb, leb, if◌then◌else◌, ◌⊎◌, inl, inr,
}

-- `backoffMultiplier` is a float in the source; it is a whole number here, as its default 2 is.
pub record RetryConfig : Type 0 where
  pub max_retries : ℕ
  pub initial_delay_ms : ℕ
  pub max_delay_ms : ℕ
  pub backoff_multiplier : ℕ
  pub jitter_ms : ℕ

-- `DEFAULT_RETRY_CONFIG` with no environment variable set.
abbrev pub default_config : RetryConfig
default_config = record {
  max_retries = 3;
  initial_delay_ms = 1000;
  max_delay_ms = 10000;
  backoff_multiplier = 2;
  jitter_ms = 500;
}

-- `Partial<RetryConfig>`.
pub record Overrides : Type 0 where
  pub max_retries : Option ℕ
  pub initial_delay_ms : Option ℕ
  pub max_delay_ms : Option ℕ
  pub backoff_multiplier : Option ℕ
  pub jitter_ms : Option ℕ

abbrev or_default : Option ℕ → ℕ → ℕ
or_default none d = d
or_default (some n) d = n

-- `{ ...DEFAULT_RETRY_CONFIG, ...config }`.
abbrev pub overridden : Overrides → RetryConfig
overridden o = record {
  max_retries = or_default o.max_retries default_config.max_retries;
  initial_delay_ms = or_default o.initial_delay_ms default_config.initial_delay_ms;
  max_delay_ms = or_default o.max_delay_ms default_config.max_delay_ms;
  backoff_multiplier = or_default o.backoff_multiplier default_config.backoff_multiplier;
  jitter_ms = or_default o.jitter_ms default_config.jitter_ms;
}

-- `getConfig`, by the entry that the map has for the name.
abbrev pub get_config : Option RetryConfig → RetryConfig
get_config none = default_config
get_config (some c) = c

abbrev min : ℕ → ℕ → ℕ
min m n = if leb m n then m else n

-- `Math.random()` is a draw below 2 ^ 53 over 2 ^ 53.
abbrev pub random_range : ℕ
random_range = 9007199254740992

unfoldable pub calculate_delay : ℕ → ℕ → RetryConfig → ℕ
calculate_delay draw attempt c =
    min (c.initial_delay_ms * c.backoff_multiplier ^ attempt) c.max_delay_ms
    + draw * c.jitter_ms / random_range

-- What the promise of one call does.
pub data Attempt (E T : Type 0) : Type 0 where
  resolves : T → Attempt E T
  rejects : E → Attempt E T

-- What `execute` does: `last_error` is undefined until a call has failed.
pub data Outcome (E T : Type 0) : Type 0 where
  value : T → Outcome E T
  throws : Option E → Outcome E T

-- The outcome with the number of calls made and the pauses slept.
pub record Run (E T : Type 0) : Type 0 where
  pub outcome : Outcome E T
  pub calls : ℕ
  pub sleeps : List ℕ

-- `shouldRetry ? shouldRetry(error, attempt) : true`.
abbrev pub wants_retry : {E : Type 0} → Option (E → ℕ → Bool) → E → ℕ → Bool
wants_retry none e attempt = true
wants_retry (some should_retry) e attempt = should_retry e attempt

module _ {E T : Type 0} where
  -- `lastError = error`.
  abbrev error_of : Attempt E T → Option E
  error_of (resolves v) = none
  error_of (rejects e) = some e

  abbrev stop : Outcome E T → Run E T
  stop o = record { outcome = o; calls = 1; sleeps = [] }

  abbrev again : ℕ → Run E T → Run E T
  again delay r = record { outcome = r.outcome; calls = r.calls + 1; sleeps = delay ∷ r.sleeps }

  -- The body of the loop after the call, given the run of the remaining rounds.
  unfoldable pub settle :
      RetryConfig → ℕ → Option (E → ℕ → Bool) → ℕ → Attempt E T → Run E T → Run E T
  settle c draw should_retry attempt (resolves v) rest = stop (value v)
  settle c draw should_retry attempt (rejects e) rest =
      if eqb attempt c.max_retries
      then stop (throws (some e))
      else if wants_retry should_retry e attempt
      then again (calculate_delay draw attempt c) rest
      else stop (throws (some e))

module _ {E T : Type 0} (c : RetryConfig) (fn : ℕ → Attempt E T) (draw : ℕ → ℕ)
    (should_retry : Option (E → ℕ → Bool)) where
  -- The `for` loop from this attempt on, with so many rounds to go and this `lastError`. What the
  -- function does and what the random source draws is given for each attempt.
  unfoldable pub loop : ℕ → ℕ → Option E → Run E T
  unfolding settle
  loop zero attempt last_error = record { outcome = throws last_error; calls = 0; sleeps = [] }
  loop (suc rounds) attempt last_error =
      let rest = loop rounds (attempt + 1) (error_of (fn attempt)) in
      settle c (draw attempt) should_retry attempt (fn attempt) rest

-- `execute`: the attempts 0 to `max_retries`.
unfoldable pub execute :
    {E T : Type 0}
    → Option RetryConfig
    → (ℕ → Attempt E T)
    → (ℕ → ℕ)
    → Option (E → ℕ → Bool)
    → Run E T
unfolding loop
execute entry fn draw should_retry =
    let c = get_config entry in loop c fn draw should_retry (c.max_retries + 1) 0 none

abbrev pub configured : Option RetryConfig → Option Overrides → Option RetryConfig
configured entry none = entry
configured entry (some o) = some (overridden o)

-- `executeWithBackoff`, with the entry it leaves in the map.
unfoldable pub execute_with_backoff :
    {E T : Type 0}
    → Option RetryConfig
    → Option Overrides
    → (ℕ → Attempt E T)
    → (ℕ → ℕ)
    → Option (E → ℕ → Bool)
    → Run E T × Option RetryConfig
unfolding execute
execute_with_backoff entry o fn draw should_retry =
    let e = configured entry o in (execute e fn draw should_retry, some (get_config e))
