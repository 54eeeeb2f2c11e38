-- ===== src/Breaker/Shedding.antt =====
-- An open breaker sheds load: what `allow` refuses, and for how long.
use heterion_router.Prelude.{
  ℕ, ◌+◌, ◌≤◌, ◌<◌, ◌≡◌, ◌≢◌, refl, true, false, Option, none, some, List, [], ◌∷◌, arith,
}
use heterion_router.Breaker.{
  CircuitBreaker, open_, state, allow, record_success, record_failure, Event, asked, succeeded,
  failed, step, run, admitted,
}

-- Every time in the history lies in the interval from `a` up to, and not including, `z`.
abbrev pub Within : ℕ → ℕ → List Event → Type 0
Within a z [] = Unit {0}
Within a z (asked t ∷ es) = (a ≤ t) × (t < z) × Within a z es
Within a z (succeeded ∷ es) = Within a z es
Within a z (failed t ∷ es) = (a ≤ t) × (t < z) × Within a z es

-- The breaker opened at `a` or later.
abbrev OpenSince : ℕ → Option ℕ → Type 0
OpenSince a none = ⊥
OpenSince a (some o) = a ≤ o

-- It is open, no probe is in flight, and `z` is at most a cooldown after `a`.
abbrev IsTripped : ℕ → ℕ → CircuitBreaker → Type 0
IsTripped a z b = OpenSince a b.opened_at × (b.probe ≡ none) × (z ≤ a + b.cooldown)

ask-IsTripped :
    (a z : ℕ) (b : CircuitBreaker) (t : ℕ)
    → a ≤ t
    → t < z
    → IsTripped a z b
    → allow b t ≡ (b, false)
unfolding allow
ask-IsTripped a z b t h k v = ground arith

success-IsTripped : (a z : ℕ) (b : CircuitBreaker) → IsTripped a z b → record_success b ≡ b
unfolding record_success
success-IsTripped a z b v = ground arith

failure-IsTripped :
    (a z : ℕ) (b : CircuitBreaker) (t : ℕ)
    → a ≤ t
    → IsTripped a z b
    → IsTripped a z (record_failure b t)
unfolding record_failure
failure-IsTripped a z b t h v = ground arith

state_of_IsTripped : (a z : ℕ) (b : CircuitBreaker) → IsTripped a z b → state b ≡ open_
unfolding state
state_of_IsTripped a z b v = ground arith

sheds :
    (a z : ℕ) (b : CircuitBreaker) (es : List Event)
    → IsTripped a z b
    → Within a z es
    → (admitted b es ≡ 0) × (state (run b es) ≡ open_)
unfolding run admitted step
sheds a z b [] v w = (refl, state_of_IsTripped a z b v)
sheds a z b (asked t ∷ es) v w =
    ground (arith, ask-IsTripped a z b t w.0 w.1 v, sheds a z b es v w.2)
sheds a z b (succeeded ∷ es) v w = ground (arith, success-IsTripped a z b v, sheds a z b es v w)
sheds a z b (failed t ∷ es) v w =
    ground (arith, sheds a z (record_failure b t) es (failure-IsTripped a z b t w.0 v) w.2)

-- An open breaker with no probe admits nothing in the cooldown after it opened, and is still open
-- at the end, whatever successes of older requests and whatever further failures come in.
pub open_sheds :
    (b : CircuitBreaker) (o : ℕ) (es : List Event)
    → b.opened_at ≡ some o
    → b.probe ≡ none
    → Within o (o + b.cooldown) es
    → (admitted b es ≡ 0) × (state (run b es) ≡ open_)
open_sheds b o es e p w = sheds o (o + b.cooldown) b es (ground arith) w

-- Every event of the history is a request that asks.
abbrev pub AllAsked : List Event → Type 0
AllAsked [] = Unit {0}
AllAsked (asked t ∷ es) = AllAsked es
AllAsked (succeeded ∷ es) = ⊥
AllAsked (failed t ∷ es) = ⊥

-- A probe was admitted at `a` or later, at most a cooldown before `z`.
abbrev IsProbing : ℕ → ℕ → CircuitBreaker → Type 0
IsProbing a z b = OpenSince a b.probe × (b.opened_at ≢ none) × (z ≤ a + b.cooldown)

ask-IsProbing :
    (a z : ℕ) (b : CircuitBreaker) (t : ℕ)
    → a ≤ t
    → t < z
    → IsProbing a z b
    → allow b t ≡ (b, false)
unfolding allow
ask-IsProbing a z b t h k v = ground arith

refuses :
    (a z : ℕ) (b : CircuitBreaker) (es : List Event)
    → IsProbing a z b
    → AllAsked es
    → Within a z es
    → admitted b es ≡ 0
unfolding admitted step
refuses a z b [] v n w = refl
refuses a z b (asked t ∷ es) v n w =
    ground (arith, ask-IsProbing a z b t w.0 w.1 v, refuses a z b es v n w.2)
refuses a z b (succeeded ∷ es) v n w = absurd n
refuses a z b (failed t ∷ es) v n w = absurd n

first-IsProbing :
    (b : CircuitBreaker) (a z o t : ℕ)
    → b.opened_at ≡ some o
    → b.probe ≡ none
    → o + b.cooldown ≤ a
    → z ≤ a + b.cooldown
    → a ≤ t
    → t < z
    → (allow b t ≡ (record b { probe = some t }, true))
      × IsProbing a z (record b { probe = some t })
unfolding allow
first-IsProbing b a z o t e p h k m n = (ground arith, (ground arith, ground arith, k))

-- However many requests ask an open breaker within one cooldown after its own cooldown has
-- elapsed, exactly one is admitted: the single half-open probe.
pub single_flight :
    (b : CircuitBreaker) (o a t : ℕ) (es : List Event)
    → b.opened_at ≡ some o
    → b.probe ≡ none
    → o + b.cooldown ≤ a
    → AllAsked es
    → Within a (a + b.cooldown) (asked t ∷ es)
    → admitted b (asked t ∷ es) ≡ 1
unfolding admitted step
single_flight b o a t es e p h n w =
    let (q, v) = first-IsProbing b a (a + b.cooldown) o t e p h (omega arith) w.0 w.1 in
    ground (arith, q, refuses a (a + b.cooldown) (record b { probe = some t }) es v n w.2)
