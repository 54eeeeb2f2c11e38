-- ===== src/Breaker/Invariant.antt =====
-- What holds of a breaker after any history.
use heterion_router.Prelude.{ℕ, ◌-◌, ◌≤◌, ◌<◌, ◌≡◌, none, some, List, [], ◌∷◌, arith}
use heterion_router.Breaker.{
  CircuitBreaker, u32_mod, new, allow, record_success, record_failure, Event, asked, succeeded,
  failed, step, run,
}

pub record Inv (b : CircuitBreaker) : Type 0 where
  pub threshold_pos : 1 ≤ b.threshold
  pub threshold_u32 : b.threshold < u32_mod
  pub failures_u32 : b.failures < u32_mod
  pub closed_below : b.opened_at ≡ none → b.failures < b.threshold
  pub closed_no_probe : b.opened_at ≡ none → b.probe ≡ none
  pub probe_waited : (o p : ℕ) → b.opened_at ≡ some o → b.probe ≡ some p → b.cooldown ≤ p - o

pub new-Inv :
    (threshold cooldown_secs : ℕ) → threshold < u32_mod → Inv (new threshold cooldown_secs)
unfolding new
new-Inv threshold cooldown_secs h = grind arith

pub allow-Inv : (b : CircuitBreaker) (now : ℕ) → Inv b → Inv (allow b now).0
unfolding allow
allow-Inv b now v = grind arith

pub record_success-Inv : (b : CircuitBreaker) → Inv b → Inv (record_success b)
unfolding record_success
record_success-Inv b v = grind arith

pub record_failure-Inv : (b : CircuitBreaker) (now : ℕ) → Inv b → Inv (record_failure b now)
unfolding record_failure
record_failure-Inv b now v = grind arith

pub step-Inv : (b : CircuitBreaker) (e : Event) → Inv b → Inv (step b e)
unfolding step
step-Inv b (asked now) v = allow-Inv b now v
step-Inv b succeeded v = record_success-Inv b v
step-Inv b (failed now) v = record_failure-Inv b now v

run-Inv : (b : CircuitBreaker) (es : List Event) → Inv b → Inv (run b es)
unfolding run
run-Inv b [] v = v
run-Inv b (e ∷ es) v = run-Inv (step b e) es (step-Inv b e v)

-- A breaker built by `new` satisfies the invariant after any history of calls: the failure count
-- of a closed breaker is below the threshold, a closed breaker has no probe, and a probe was
-- admitted no sooner than a cooldown after the breaker opened.
pub run-new-Inv :
    (threshold cooldown_secs : ℕ) (es : List Event)
    → threshold < u32_mod
    → Inv (run (new threshold cooldown_secs) es)
run-new-Inv threshold cooldown_secs es h = run-Inv _ es (new-Inv threshold cooldown_secs h)
