-- ===== src/Breaker.antt =====
-- The circuit breaker of one backend: crates/heterion-router-routing/src/breaker.rs, lines 22-131.
-- An `Instant` is a number of nanoseconds since a fixed origin, `duration_since` is the saturating
-- difference that the standard library documents, and `failures` is a u32 that wraps in a release
-- build (the profile sets no overflow checks).
pub mod Invariant
pub mod Streak
pub mod Shedding
pub mod Recovery
pub mod Set
mod Tests
use heterion_router.Prelude.{
  ℕ, ◌+◌, ◌-◌, ◌*◌, ◌%◌, max, Bool, true, false, Option, none, some, List, [], ◌∷◌, leb, ltb,
  if◌then◌else◌,
}

pub data BreakerState : Type 0 where
  closed open_ half_open : BreakerState

pub record CircuitBreaker : Type 0 where
  pub threshold : ℕ  -- u32
  pub cooldown : ℕ  -- nanoseconds
  pub failures : ℕ  -- u32
  pub opened_at : Option ℕ
  pub probe : Option ℕ

abbrev pub u32_mod : ℕ
u32_mod = 4294967296

-- `Duration::from_secs`, in nanoseconds.
abbrev pub from_secs : ℕ → ℕ
from_secs s = s * 1000000000

-- `CircuitBreaker::new`.
unfoldable pub new : ℕ → ℕ → CircuitBreaker
new threshold cooldown_secs = record {
  threshold = max threshold 1;
  cooldown = from_secs cooldown_secs;
  failures = 0;
  opened_at = none;
  probe = none;
}

state_of : Option ℕ → Option ℕ → BreakerState
state_of (some o) (some p) = half_open
state_of (some o) none = open_
state_of none probe = closed

-- `CircuitBreaker::state`.
unfoldable pub state : CircuitBreaker → BreakerState
unfolding state_of
state b = state_of b.opened_at b.probe

-- `now.duration_since(earlier)`.
abbrev pub duration_since : ℕ → ℕ → ℕ
duration_since now earlier = now - earlier

-- The `if let Some(admitted) = self.probe && …` of `allow`.
abbrev probe_in_flight : Option ℕ → ℕ → ℕ → Bool
probe_in_flight none now cooldown = false
probe_in_flight (some admitted) now cooldown = ltb (duration_since now admitted) cooldown

allow_opened : CircuitBreaker → Option ℕ → ℕ → CircuitBreaker × Bool
allow_opened b none now = (b, true)
allow_opened b (some opened) now =
    if probe_in_flight b.probe now b.cooldown
    then (b, false)
    else if ltb (duration_since now opened) b.cooldown
    then (b, false)
    else (record b { probe = some now }, true)

-- `CircuitBreaker::allow`.
unfoldable pub allow : CircuitBreaker → ℕ → CircuitBreaker × Bool
unfolding allow_opened
allow b now = allow_opened b b.opened_at now

-- The first `if` of `record_success`.
abbrev close_probe : CircuitBreaker → Option ℕ → CircuitBreaker
close_probe b none = b
close_probe b (some p) = record b { probe = none; opened_at = none }

-- The second `if` of `record_success`.
abbrev clear_failures : CircuitBreaker → Option ℕ → CircuitBreaker
clear_failures b none = record b { failures = 0 }
clear_failures b (some o) = b

-- `CircuitBreaker::record_success`.
unfoldable pub record_success : CircuitBreaker → CircuitBreaker
record_success b = let c = close_probe b b.probe in clear_failures c c.opened_at

-- `CircuitBreaker::record_failure`.
unfoldable pub record_failure : CircuitBreaker → ℕ → CircuitBreaker
record_failure b now =
    let c = record b { failures = (b.failures + 1) % u32_mod; probe = none } in
    if leb c.threshold c.failures then record c { opened_at = some now } else c

-- What happens to a breaker, each event at its time.
pub data Event : Type 0 where
  asked : ℕ → Event
  succeeded : Event
  failed : ℕ → Event

unfoldable pub step : CircuitBreaker → Event → CircuitBreaker
step b (asked now) = (allow b now).0
step b succeeded = record_success b
step b (failed now) = record_failure b now

unfoldable pub run : CircuitBreaker → List Event → CircuitBreaker
run b [] = b
run b (e ∷ es) = run (step b e) es

abbrev pub admits : CircuitBreaker → Event → Bool
admits b (asked now) = (allow b now).1
admits b _ = false

-- How many of the asked requests are admitted.
unfoldable pub admitted : CircuitBreaker → List Event → ℕ
admitted b [] = 0
admitted b (e ∷ es) = (if admits b e then 1 else 0) + admitted (step b e) es
