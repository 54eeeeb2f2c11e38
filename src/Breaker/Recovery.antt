-- ===== src/Breaker/Recovery.antt =====
-- How a breaker comes back into service.
use heterion_router.Prelude.{ℕ, ◌+◌, ◌≤◌, ◌<◌, ◌≡◌, true, false, Option, none, some, arith, max}
use heterion_router.Breaker.{
  CircuitBreaker, closed, open_, state, allow, record_success, record_failure,
}

-- The latest of the times at which the breaker opened and admitted its probe.
abbrev pub last_change : Option ℕ → Option ℕ → ℕ
last_change none probe = 0
last_change (some o) none = o
last_change (some o) (some p) = max o p

-- No breaker is out of rotation for good: a cooldown after it opened or admitted a probe, whichever
-- is later, a request is admitted; its success closes the breaker and
-- clears the failure count.
pub recovers :
    (b : CircuitBreaker) (now : ℕ)
    → last_change b.opened_at b.probe + b.cooldown ≤ now
    → let c = (allow b now).0 in
      ((allow b now).1 ≡ true)
      × (state (record_success c) ≡ closed)
      × ((record_success c).failures ≡ 0)
unfolding allow state record_success
recovers b now h = ground arith

-- The failure of an admitted probe opens the breaker again, if the count had reached the threshold
-- and does not wrap, and keeps every request out for a whole cooldown from then on.
pub failed_probe_sheds :
    (b : CircuitBreaker) (p f t : ℕ)
    → b.probe ≡ some p
    → b.threshold ≤ b.failures + 1
    → b.failures + 1 < 4294967296
    → f ≤ t
    → t < f + b.cooldown
    → (state (record_failure b f) ≡ open_) × ((allow (record_failure b f) t).1 ≡ false)
unfolding allow state record_failure
failed_probe_sheds b p f t e h k l m = ground arith
