-- ===== src/Breaker/Tests.antt =====
-- Runs of the breaker at the settings of its unit tests, in seconds after the start.
use heterion_router.Prelude.{◌≡◌, refl, true, none, some, List, [], ◌∷◌, arith, codes}
use heterion_router.Breaker.{
  CircuitBreaker, closed, open_, new, state, allow, record_success, record_failure, Event, asked,
  succeeded, failed, step, run, admitted, from_secs,
}
use heterion_router.Breaker.Shedding.{open_sheds, single_flight}
use heterion_router.Breaker.Streak.{below_threshold_closed}
use heterion_router.Breaker.Recovery.{recovers}
use heterion_router.Breaker.Set
use heterion_router.Breaker.Set.{breaker-run}

-- `opens_after_threshold_and_recovers`.
abbrev tripped : List Event
tripped = asked 0 ∷ failed 0 ∷ failed 0 ∷ failed 0 ∷ []

test_trips : state (run (new 3 60) tripped) ≡ open_
unfolding state run step record_failure allow new
test_trips = refl

test_probe :
    admitted (run (new 3 60) tripped) (asked (from_secs 61) ∷ asked (from_secs 61) ∷ []) ≡ 1
unfolding admitted run step record_failure allow new
test_probe = refl

-- `stale_success_does_not_resurrect_a_tripped_breaker`.
test_stale : state (run (new 1 60) (asked 0 ∷ failed 0 ∷ succeeded ∷ [])) ≡ open_
unfolding state run step record_failure record_success allow new
test_stale = refl

-- `an_abandoned_probe_expires_with_the_cooldown`.
test_abandoned :
    (allow (run (new 1 60) (failed 0 ∷ asked (from_secs 61) ∷ [])) (from_secs 121)).1 ≡ true
unfolding run step record_failure allow new
test_abandoned = refl

abbrev opened : CircuitBreaker
opened = record { threshold = 3; cooldown = 60; failures = 3; opened_at = some 5; probe = none }

open_sheds_example :
    (admitted opened (asked 40 ∷ succeeded ∷ failed 41 ∷ asked 64 ∷ []) ≡ 0)
    × (state (run opened (asked 40 ∷ succeeded ∷ failed 41 ∷ asked 64 ∷ [])) ≡ open_)
open_sheds_example =
    open_sheds opened 5 (asked 40 ∷ succeeded ∷ failed 41 ∷ asked 64 ∷ []) refl refl (omega arith)

single_flight_example : admitted opened (asked 70 ∷ asked 70 ∷ asked 99 ∷ []) ≡ 1
single_flight_example =
    single_flight opened 5 65 70 (asked 70 ∷ asked 99 ∷ []) refl refl (omega arith) tt (omega arith)

abbrev flaky : List Event
flaky = failed 1 ∷ failed 2 ∷ succeeded ∷ asked 3 ∷ failed 4 ∷ []

below_threshold_closed_example :
    (state (run (new 3 60) flaky) ≡ closed) × ((run (new 3 60) flaky).failures ≡ 1)
below_threshold_closed_example = below_threshold_closed 3 60 flaky (omega arith) (omega arith)

recovers_example :
    ((allow opened 65).1 ≡ true)
    × (state (record_success (allow opened 65).0) ≡ closed)
    × ((record_success (allow opened 65).0).failures ≡ 0)
recovers_example = recovers opened 65 (omega arith)

abbrev probing : CircuitBreaker
probing = record opened { probe = some 70 }

abbrev mixed : List Set.Call
mixed =
    Set.Call.failed (codes "a") 0
    ∷ Set.Call.asked (codes "b") 0
    ∷ Set.Call.succeeded (codes "b")
    ∷ []

-- `set_tracks_backends_independently`.
breaker-run_example :
    Set.breaker (Set.run (Set.new 1 60) mixed) (codes "a")
    ≡ run (Set.breaker (Set.new 1 60) (codes "a")) (Set.events_of (codes "a") mixed)
breaker-run_example = breaker-run (Set.new 1 60) (codes "a") mixed
