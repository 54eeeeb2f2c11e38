-- ===== src/Breaker/Set.antt =====
-- The breakers of all backends: `BreakerSet` in crates/heterion-router-routing/src/breaker.rs,
-- lines 133-178. `breaker` adds the entry it does not find, as `or_insert_with` does.
use heterion_router.Prelude.{
  ℕ, ◌≡◌, refl, Bool, Option, none, some, List, [], ◌∷◌, Text, arith, lookup, insert, lookup-insert,
  text_eq, text_eq_iff, if◌then◌else◌,
}
use heterion_router.Breaker
use heterion_router.Breaker.{CircuitBreaker, BreakerState}

pub record BreakerSet : Type 0 where
  pub breakers : List (Text × CircuitBreaker)
  pub threshold : ℕ
  pub cooldown_secs : ℕ

-- `BreakerSet::new`.
unfoldable pub new : ℕ → ℕ → BreakerSet
new threshold cooldown_secs = record {
  breakers = [];
  threshold = threshold;
  cooldown_secs = cooldown_secs;
}

abbrev get_or_new : BreakerSet → Option CircuitBreaker → CircuitBreaker
get_or_new s none = Breaker.new s.threshold s.cooldown_secs
get_or_new s (some b) = b

-- `BreakerSet::breaker`: the entry, made with the set's settings where there is none.
unfoldable pub breaker : BreakerSet → Text → CircuitBreaker
breaker s backend = get_or_new s (lookup backend s.breakers)

-- What the caller of `breaker` writes back through the reference.
unfoldable pub put : BreakerSet → Text → CircuitBreaker → BreakerSet
put s backend b = record s { breakers = insert backend b s.breakers }

-- `BreakerSet::allow`.
unfoldable pub allow : BreakerSet → Text → ℕ → BreakerSet × Bool
allow s backend now =
    let (b, admitted) = Breaker.allow (breaker s backend) now in (put s backend b, admitted)

-- `BreakerSet::record_success`.
unfoldable pub record_success : BreakerSet → Text → BreakerSet
record_success s backend = put s backend (Breaker.record_success (breaker s backend))

-- `BreakerSet::record_failure`.
unfoldable pub record_failure : BreakerSet → Text → ℕ → BreakerSet
record_failure s backend now = put s backend (Breaker.record_failure (breaker s backend) now)

-- `BreakerSet::state`.
unfoldable pub state : BreakerSet → Text → BreakerSet × BreakerState
state s backend = let b = breaker s backend in (put s backend b, Breaker.state b)

pub breaker-put :
    (s : BreakerSet) (k j : Text) (b : CircuitBreaker)
    → breaker (put s k b) j ≡ (if text_eq k j then b else breaker s j)
unfolding breaker put
breaker-put s k j b = ground (arith, lookup-insert k j b s.breakers)

-- A call on the set, by the backend that it names.
pub data Call : Type 0 where
  asked : Text → ℕ → Call
  succeeded : Text → Call
  failed : Text → ℕ → Call

unfoldable pub step : BreakerSet → Call → BreakerSet
step s (asked backend now) = (allow s backend now).0
step s (succeeded backend) = record_success s backend
step s (failed backend now) = record_failure s backend now

unfoldable pub run : BreakerSet → List Call → BreakerSet
run s [] = s
run s (c ∷ cs) = run (step s c) cs

-- The calls that name one backend, as events of its breaker.
abbrev pub events_of : Text → List Call → List Breaker.Event
events_of k [] = []
events_of k (asked j t ∷ cs) =
    if text_eq j k then Breaker.Event.asked t ∷ events_of k cs else events_of k cs
events_of k (succeeded j ∷ cs) =
    if text_eq j k then Breaker.Event.succeeded ∷ events_of k cs else events_of k cs
events_of k (failed j t ∷ cs) =
    if text_eq j k then Breaker.Event.failed t ∷ events_of k cs else events_of k cs

-- Each backend's breaker, after any calls on the set, is what the calls that name this backend make
-- of its breaker: the others do not touch it.
pub breaker-run :
    (s : BreakerSet) (k : Text) (cs : List Call)
    → breaker (run s cs) k ≡ Breaker.run (breaker s k) (events_of k cs)
unfolding run step allow record_success record_failure Breaker.run Breaker.step
breaker-run s k [] = refl
breaker-run s k (asked j t ∷ cs) = ground (
  arith,
  text_eq_iff j k,
  breaker-put s j k (Breaker.allow (breaker s j) t).0,
  breaker-run (put s j (Breaker.allow (breaker s j) t).0) k cs,
)
breaker-run s k (succeeded j ∷ cs) = ground (
  arith,
  text_eq_iff j k,
  breaker-put s j k (Breaker.record_success (breaker s j)),
  breaker-run (put s j (Breaker.record_success (breaker s j))) k cs,
)
breaker-run s k (failed j t ∷ cs) = ground (
  arith,
  text_eq_iff j k,
  breaker-put s j k (Breaker.record_failure (breaker s j) t),
  breaker-run (put s j (Breaker.record_failure (breaker s j) t)) k cs,
)
