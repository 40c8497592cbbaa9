-- ===== src/Interoperability/Circuit.antt =====
-- interoperability.py: `CircuitBreaker`, which holds calls of a failing peer back for a while.
pub mod Spec
pub mod Refines
mod Tests
use aegis_framework_platform.Base.{
  ℕ, ◌+◌, ◌-◌, ◌*◌, String, Bool, true, false, ◌||◌, Option, none, some, [], ltb, leb, nat_beq,
  if◌then◌else◌, string_eq, value_error, Result, ok, err, ◌>>=◌, ◌>>◌, raise_if, or_default,
}
use aegis_framework_platform.Base.Dict.{Dict, get, put, pop, has_key}

-- Readings of the clock and the cooldown are counted in ticks. A peer that is looked up in
-- `_failures` for the first time has no failures.
pub record CircuitBreaker : Type 0 where
  pub failure_threshold : ℕ
  pub cooldown : ℕ
  pub failures : Dict String ℕ
  pub opened_at : Dict String ℕ

abbrev pub new_breaker : ℕ → ℕ → CircuitBreaker
new_breaker failure_threshold cooldown = record {
  failure_threshold = failure_threshold;
  cooldown = cooldown;
  failures = [];
  opened_at = [];
}

-- `CircuitBreaker.__init__`, with the ticks of a second
unfoldable pub make_breaker : ℕ → ℕ → ℕ → Result CircuitBreaker
make_breaker second failure_threshold cooldown = do
  raise_if (ltb failure_threshold 1 || ltb 20 failure_threshold) value_error
  raise_if (nat_beq cooldown 0 || ltb (3600 * second) cooldown) value_error
  ok (new_breaker failure_threshold cooldown)

-- `self._failures[peer_id]`
abbrev pub failures_of : CircuitBreaker → String → ℕ
failures_of b peer_id = or_default (get peer_id b.failures) 0

-- `opened_at is not None and self._clock() - opened_at >= self._cooldown_seconds`
unfoldable pub is_cooled : ℕ → ℕ → Option ℕ → Bool
is_cooled cooldown now none = false
is_cooled cooldown now (some opened_at) = leb (opened_at + cooldown) now

-- A method gets the reading of the clock, and returns its answer and the breaker that it leaves.
unfoldable pub allow : String → ℕ → CircuitBreaker → Bool × CircuitBreaker
unfolding is_cooled
allow peer_id now b =
    if ltb (failures_of b peer_id) b.failure_threshold
    then (true, b)
    else if is_cooled b.cooldown now (get peer_id b.opened_at)
    then (
      true,
      record b {
        failures = put peer_id (b.failure_threshold - 1) b.failures;
        opened_at = pop peer_id b.opened_at;
      },
    )
    else (false, b)

-- `d.setdefault(key, value)`
unfoldable pub set_default : String → ℕ → Dict String ℕ → Dict String ℕ
set_default key value d = if has_key key d then d else put key value d

unfoldable pub record_failure : String → ℕ → CircuitBreaker → CircuitBreaker
unfolding set_default
record_failure peer_id now b =
    let count = failures_of b peer_id + 1 in
    record b {
      failures = put peer_id count b.failures;
      opened_at =
          if leb b.failure_threshold count
          then set_default peer_id now b.opened_at
          else b.opened_at;
    }

unfoldable pub record_success : String → CircuitBreaker → CircuitBreaker
record_success peer_id b = record b {
  failures = put peer_id 0 b.failures;
  opened_at = pop peer_id b.opened_at;
}

-- `record`
unfoldable pub record_outcome : String → Bool → ℕ → CircuitBreaker → CircuitBreaker
unfolding record_failure record_success
record_outcome peer_id success now b =
    if success then record_success peer_id b else record_failure peer_id now b
