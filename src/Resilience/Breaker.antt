-- ===== src/Resilience/Breaker.antt =====
-- backend/src/common/resilience/circuit-breaker.service.ts, for one name. `execute` is cut at its
-- `await fn()`: `begin` runs up to the call, `succeed` and `fail` from its outcome on, so that the
-- steps of concurrent calls can be interleaved; all of them work on the one record in memory.
pub mod Interleaving
pub mod Recovery
use hakawi.Common.{
  ℕ, zero, suc, ◌+◌, ◌/◌, Bool, true, false, Option, none, some, leb, eqb, ◌&&◌, if◌then◌else◌,
}

pub data CircuitBreakerState : Type 0 where
  closed open_state half_open : CircuitBreakerState

pub record CircuitBreakerConfig : Type 0 where
  pub failure_threshold : ℕ
  pub recovery_timeout_ms : ℕ
  pub success_threshold : ℕ
  pub monitoring_period_ms : ℕ

-- `DEFAULT_CIRCUIT_BREAKER_CONFIG` with no environment variable set.
abbrev pub default_config : CircuitBreakerConfig
default_config = record {
  failure_threshold = 5;
  recovery_timeout_ms = 30000;
  success_threshold = 3;
  monitoring_period_ms = 60000;
}

pub record StateRecord : Type 0 where
  pub state : CircuitBreakerState
  pub failures : ℕ
  pub successes : ℕ
  pub last_failure_time : Option ℕ
  pub last_success_time : Option ℕ
  pub total_calls : ℕ
  pub total_failures : ℕ
  pub total_successes : ℕ
  pub rejected_calls : ℕ

abbrev pub initial_state : StateRecord
initial_state = record {
  state = closed;
  failures = 0;
  successes = 0;
  last_failure_time = none;
  last_success_time = none;
  total_calls = 0;
  total_failures = 0;
  total_successes = 0;
  rejected_calls = 0;
}

-- The text that Valkey holds under the key: JSON of a record, or something that does not parse.
pub data Cached : Type 0 where
  corrupt : Cached
  stored : StateRecord → Cached

-- `this.states.get(name)` and the entry in Valkey with its time to live in seconds.
pub record Breaker : Type 0 where
  pub memory : Option StateRecord
  pub cached : Option Cached
  pub ttl_seconds : ℕ

unfoldable pub persist_state : CircuitBreakerConfig → StateRecord → Breaker → Breaker
persist_state c s b = record b {
  cached = some (stored s);
  ttl_seconds = c.monitoring_period_ms / 1000;
}

-- `loadState`, by what Valkey answers.
unfoldable pub load_from : CircuitBreakerConfig → Option Cached → Breaker → StateRecord × Breaker
unfolding persist_state
load_from c (some (stored s)) b = (s, record b { memory = some s })
load_from c (some corrupt) b =
    (initial_state, persist_state c initial_state (record b { memory = some initial_state }))
load_from c none b =
    (initial_state, persist_state c initial_state (record b { memory = some initial_state }))

-- `this.states.get(name) ?? (await this.loadState(name))`.
unfoldable pub current_in :
    CircuitBreakerConfig → Option StateRecord → Breaker → StateRecord × Breaker
unfolding load_from
current_in c (some s) b = (s, b)
current_in c none b = load_from c b.cached b

unfoldable pub current : CircuitBreakerConfig → Breaker → StateRecord × Breaker
unfolding current_in
current c b = current_in c b.memory b

-- The record in memory after a change of it that is persisted.
abbrev pub keep : CircuitBreakerConfig → StateRecord → Breaker → Breaker
keep c s b = persist_state c s (record b { memory = some s })

-- `transitionTo`.
unfoldable pub transition_to : CircuitBreakerState → StateRecord → StateRecord
transition_to new s = record s { state = new }

-- `state.lastFailureTime && now - state.lastFailureTime >= config.recoveryTimeoutMs`: no time and the
-- time 0 are falsy.
abbrev pub is_recovered : Option ℕ → ℕ → ℕ → Bool
is_recovered none timeout now = false
is_recovered (some zero) timeout now = false
is_recovered (some (suc t)) timeout now = leb (suc t + timeout) now

pub data Admission : Type 0 where
  admitted rejected : Admission

-- The record after the part of `execute` that precedes the call, and whether the call is made.
unfoldable pub begin_state :
    CircuitBreakerConfig → ℕ → StateRecord → CircuitBreakerState → StateRecord × Admission
unfolding transition_to
begin_state c now s open_state =
    if is_recovered s.last_failure_time c.recovery_timeout_ms now
    then (
      record (transition_to half_open s) {
        failures = 0;
        successes = 0;
        total_calls = s.total_calls + 1;
      },
      admitted,
    )
    else (record s { rejected_calls = s.rejected_calls + 1 }, rejected)
begin_state c now s closed = (record s { total_calls = s.total_calls + 1 }, admitted)
begin_state c now s half_open = (record s { total_calls = s.total_calls + 1 }, admitted)

-- The record after the `try` part, from the result of the call on.
unfoldable pub success_state :
    CircuitBreakerConfig → ℕ → StateRecord → CircuitBreakerState → StateRecord
unfolding transition_to
success_state c now s half_open =
    let t = record s {
      total_successes = s.total_successes + 1;
      last_success_time = some now;
      successes = s.successes + 1;
    } in
    if leb c.success_threshold t.successes
    then record (transition_to closed t) { failures = 0; successes = 0 }
    else t
success_state c now s _ = record s {
  total_successes = s.total_successes + 1;
  last_success_time = some now;
  failures = 0;
}

-- The record after the `catch` part.
unfoldable pub failure_state :
    CircuitBreakerConfig → ℕ → StateRecord → CircuitBreakerState → StateRecord
unfolding transition_to
failure_state c now s half_open = transition_to open_state (record s {
  total_failures = s.total_failures + 1;
  last_failure_time = some now;
  failures = 0;
  successes = 0;
})
failure_state c now s closed =
    let t = record s {
      total_failures = s.total_failures + 1;
      last_failure_time = some now;
      failures = s.failures + 1;
    } in
    if leb c.failure_threshold t.failures then transition_to open_state t else t
failure_state c now s open_state = record s {
  total_failures = s.total_failures + 1;
  last_failure_time = some now;
}

abbrev pub begin : CircuitBreakerConfig → ℕ → StateRecord → StateRecord × Admission
begin c now s = begin_state c now s s.state

abbrev pub succeed : CircuitBreakerConfig → ℕ → StateRecord → StateRecord
succeed c now s = success_state c now s s.state

abbrev pub fail : CircuitBreakerConfig → ℕ → StateRecord → StateRecord
fail c now s = failure_state c now s s.state

-- What the wrapped function does when it is called, and what `execute` gives back.
pub data Call (A : Type 0) : Type 0 where
  returned : A → Call A
  thrown : Call A

pub data Reply (A : Type 0) : Type 0 where
  value : A → Reply A
  fallback_value : Reply A
  rejected_error : Reply A
  call_error : Reply A

abbrev pub or_fallback : {A : Type 0} → Bool → Reply A → Reply A
or_fallback has_fallback e = if has_fallback then fallback_value else e

unfoldable pub finish :
    {A : Type 0}
    → CircuitBreakerConfig
    → ℕ
    → Bool
    → Call A
    → StateRecord
    → Breaker
    → Reply A × Breaker
unfolding success_state failure_state persist_state
finish c now has_fallback (returned a) s b = (value a, keep c (succeed c now s) b)
finish c now has_fallback thrown s b =
    (or_fallback has_fallback call_error, keep c (fail c now s) b)

unfoldable pub run_admitted :
    {A : Type 0}
    → CircuitBreakerConfig
    → ℕ
    → Bool
    → Call A
    → StateRecord × Admission
    → Breaker
    → Reply A × Breaker
unfolding finish persist_state
run_admitted c later has_fallback call (s, admitted) b = finish c later has_fallback call s b
run_admitted c later has_fallback call (s, rejected) b =
    (or_fallback has_fallback rejected_error, keep c s b)

-- `execute`, with nothing else running during the call: `now` before it, `later` after it.
unfoldable pub execute :
    {A : Type 0} → CircuitBreakerConfig → ℕ → ℕ → Bool → Call A → Breaker → Reply A × Breaker
unfolding current begin_state run_admitted
execute c now later has_fallback call b =
    let (s, b') = current c b in run_admitted c later has_fallback call (begin c now s) b'

unfoldable pub reset : CircuitBreakerConfig → Breaker → Breaker
unfolding persist_state
reset c b = keep c initial_state b

unfoldable pub get_state : CircuitBreakerConfig → Breaker → CircuitBreakerState × Breaker
unfolding current
get_state c b = let (s, b') = current c b in (s.state, b')

-- `getStats`: a copy of the record.
unfoldable pub get_stats : CircuitBreakerConfig → Breaker → StateRecord × Breaker
unfolding current
get_stats c b = current c b
