-- ===== src/Breaker/Streak.antt =====
-- The threshold counts consecutive failures: the count against an independent description.
use heterion_router.Prelude.{
  ℕ, suc, ◌≤◌, ◌<◌, ◌≡◌, ◌≢◌, refl, true, none, List, [], inl, inr, Nat-cases, ◌∷◌, arith, max,
}
use heterion_router.Breaker.{
  CircuitBreaker, closed, open_, new, state, allow, record_success, record_failure, Event, asked,
  succeeded, failed, step, run, u32_mod,
}

-- The failures since the last success, when `n` came before the history.
abbrev pub streak : ℕ → List Event → ℕ
streak n [] = n
streak n (asked t ∷ es) = streak n es
streak n (succeeded ∷ es) = streak 0 es
streak n (failed t ∷ es) = streak (suc n) es

-- The longest run of failures with no success in between.
abbrev pub longest : ℕ → List Event → ℕ
longest n [] = n
longest n (asked t ∷ es) = longest n es
longest n (succeeded ∷ es) = max n (longest 0 es)
longest n (failed t ∷ es) = longest (suc n) es

longest_ge : (n : ℕ) (es : List Event) → n ≤ longest n es
longest_ge n [] = omega arith
longest_ge n (asked t ∷ es) = longest_ge n es
longest_ge n (succeeded ∷ es) = omega arith
longest_ge n (failed t ∷ es) = omega (arith, longest_ge (suc n) es)

-- A closed breaker with a count of `n`.
abbrev Counts : ℕ → CircuitBreaker → Type 0
Counts n b = (b.opened_at ≡ none) × (b.probe ≡ none) × (b.failures ≡ n) × (b.threshold < u32_mod)

allow-Counts : (n : ℕ) (b : CircuitBreaker) (t : ℕ) → Counts n b → allow b t ≡ (b, true)
unfolding allow
allow-Counts n b t v = ground arith

record_success-Counts :
    (n : ℕ) (b : CircuitBreaker)
    → Counts n b
    → Counts 0 (record_success b) × ((record_success b).threshold ≡ b.threshold)
unfolding record_success
record_success-Counts n b v = ground arith

record_failure-Counts :
    (n : ℕ) (b : CircuitBreaker) (t : ℕ)
    → Counts n b
    → suc n < b.threshold
    → Counts (suc n) (record_failure b t) × ((record_failure b t).threshold ≡ b.threshold)
unfolding record_failure
record_failure-Counts n b t v h = ground arith

stays_closed :
    (n : ℕ) (b : CircuitBreaker) (es : List Event)
    → Counts n b
    → longest n es < b.threshold
    → Counts (streak n es) (run b es)
unfolding run step
stays_closed n b [] v h = v
stays_closed n b (asked t ∷ es) v h = ground (arith, allow-Counts n b t v, stays_closed n b es v h)
stays_closed n b (succeeded ∷ es) v h =
    let w = record_success-Counts n b v in
    stays_closed 0 (record_success b) es w.0 (omega (arith, w.1))
stays_closed n b (failed t ∷ es) v h =
    let w = record_failure-Counts n b t v (omega (arith, longest_ge (suc n) es)) in
    stays_closed (suc n) (record_failure b t) es w.0 (omega (arith, w.1))

state_of_Counts : (n : ℕ) (b : CircuitBreaker) → Counts n b → state b ≡ closed
unfolding state
state_of_Counts n b v = ground arith

new-Counts :
    (threshold cooldown_secs : ℕ) → threshold < u32_mod → Counts 0 (new threshold cooldown_secs)
unfolding new
new-Counts threshold cooldown_secs h = ground arith

new_threshold :
    (threshold cooldown_secs : ℕ) → (new threshold cooldown_secs).threshold ≡ max threshold 1
unfolding new
new_threshold threshold cooldown_secs = refl

-- While no run of consecutive failures reaches the threshold (at least 1), a new breaker is closed
-- after any history, and its count is the number of failures since the last success.
pub below_threshold_closed :
    (threshold cooldown_secs : ℕ) (es : List Event)
    → threshold < u32_mod
    → longest 0 es < max threshold 1
    → let b = run (new threshold cooldown_secs) es in
      (state b ≡ closed) × (b.failures ≡ streak 0 es)
below_threshold_closed threshold cooldown_secs es h k =
    let b = new threshold cooldown_secs in
    let v =
      stays_closed 0 b es (new-Counts threshold cooldown_secs h)
        (rw (new_threshold threshold cooldown_secs) k) in
    (state_of_Counts (streak 0 es) (run b es) v, v.2)

-- No request asks during the history.
abbrev pub NoneAsked : List Event → Type 0
NoneAsked [] = Unit {0}
NoneAsked (asked t ∷ es) = ⊥
NoneAsked (succeeded ∷ es) = NoneAsked es
NoneAsked (failed t ∷ es) = NoneAsked es

-- Open, with no probe: without a request that asks, nothing closes it.
abbrev IsOpen : CircuitBreaker → Type 0
IsOpen b = (b.opened_at ≢ none) × (b.probe ≡ none)

record_success-IsOpen : (b : CircuitBreaker) → IsOpen b → IsOpen (record_success b)
unfolding record_success
record_success-IsOpen b v = ground arith

record_failure-IsOpen : (b : CircuitBreaker) (t : ℕ) → IsOpen b → IsOpen (record_failure b t)
unfolding record_failure
record_failure-IsOpen b t v = ground arith

run-IsOpen : (b : CircuitBreaker) (es : List Event) → IsOpen b → NoneAsked es → IsOpen (run b es)
unfolding run step
run-IsOpen b [] v n = v
run-IsOpen b (asked t ∷ es) v n = absurd n
run-IsOpen b (succeeded ∷ es) v n = run-IsOpen (record_success b) es (record_success-IsOpen b v) n
run-IsOpen b (failed t ∷ es) v n =
    run-IsOpen (record_failure b t) es (record_failure-IsOpen b t v) n

record_failure_trips :
    (n : ℕ) (b : CircuitBreaker) (t : ℕ)
    → Counts n b
    → n < b.threshold
    → b.threshold ≤ suc n
    → IsOpen (record_failure b t)
unfolding record_failure
record_failure_trips n b t v h k = ground arith

trips :
    (n : ℕ) (b : CircuitBreaker) (es : List Event)
    → Counts n b
    → n < b.threshold
    → NoneAsked es
    → b.threshold ≤ longest n es
    → IsOpen (run b es)
unfolding run step
trips n b [] v k m h = absurd (omega arith)
trips n b (asked t ∷ es) v k m h = absurd m
trips n b (succeeded ∷ es) v k m h =
    let w = record_success-Counts n b v in
    trips 0 (record_success b) es w.0 (omega (arith, w.1)) m (omega (arith, w.1))
trips n b (failed t ∷ es) v k m h = elim (Nat-cases (suc n) b.threshold) [
  | inl under ↦
      let w = record_failure-Counts n b t v under in
      trips (suc n) (record_failure b t) es w.0 (omega (arith, w.1)) m (omega (arith, w.1))
  | inr over ↦ run-IsOpen (record_failure b t) es (record_failure_trips n b t v k over) m
]

state_of_IsOpen : (b : CircuitBreaker) → IsOpen b → state b ≡ open_
unfolding state
state_of_IsOpen b v = ground arith

-- Where no request asks in between, a run of consecutive failures as long as the threshold leaves a
-- new breaker open, whatever came before it and whatever follows.
pub threshold_opens :
    (threshold cooldown_secs : ℕ) (es : List Event)
    → threshold < u32_mod
    → NoneAsked es
    → max threshold 1 ≤ longest 0 es
    → state (run (new threshold cooldown_secs) es) ≡ open_
threshold_opens threshold cooldown_secs es h n k =
    let b = new threshold cooldown_secs in
    let e = new_threshold threshold cooldown_secs in
    state_of_IsOpen (run b es)
      (trips 0 b es (new-Counts threshold cooldown_secs h) (rw e (omega arith)) n (rw e k))
