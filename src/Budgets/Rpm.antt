-- ===== src/Budgets/Rpm.antt =====
-- The requests-per-minute ceiling: `Window` and `rpm_retry_after` in
-- crates/heterion-router-gateway/src/budgets.rs. The ceiling of a key, which
-- the database keeps, is an argument; the map of windows is passed on. A time is a number of seconds; where the
-- clock went back, a difference of times is 0 here, which the tests do not tell from a negative one.
use heterion_router.Prelude.{
  ℕ, ◌+◌, ◌-◌, max, Option, none, some, List, [], ◌∷◌, Text, leb, ltb, if◌then◌else◌, length,
  lookup, insert,
}

-- `RPM_WINDOW_SECS`.
abbrev pub rpm_window_secs : ℕ
rpm_window_secs = 60

-- `RPM_TRACKED_KEYS`.
abbrev pub rpm_tracked_keys : ℕ
rpm_tracked_keys = 1024

pub record Window : Type 0 where
  pub started : ℕ
  pub used : ℕ  -- u32

-- `map.retain(|_, window| now - window.started < RPM_WINDOW_SECS)`.
unfoldable pub retain_open : ℕ → List (Text × Window) → List (Text × Window)
retain_open now [] = []
retain_open now ((key, w) ∷ m) =
    let rest = retain_open now m in
    if ltb (now - w.started) rpm_window_secs then (key, w) ∷ rest else rest

abbrev pub pruned : ℕ → List (Text × Window) → List (Text × Window)
pruned now m = if ltb rpm_tracked_keys (length m) then retain_open now m else m

abbrev pub fresh : ℕ → Window
fresh now = record { started = now; used = 0 }

-- The entry's window, or a new one, rolled when it has ended.
abbrev pub rolled : ℕ → Option Window → Window
rolled now none = fresh now
rolled now (some w) = if leb rpm_window_secs (now - w.started) then fresh now else w

-- The verdict on the window, and the window after it.
abbrev pub charge : ℕ → ℕ → Window → Window × Option ℕ
charge limit now w =
    if leb limit w.used
    then (w, some (max (w.started + rpm_window_secs - now) 1))
    else (record w { used = w.used + 1 }, none)

abbrev pub write_back :
    Text → List (Text × Window) → Window × Option ℕ → List (Text × Window) × Option ℕ
write_back key m (w, verdict) = (insert key w m, verdict)

-- `rpm_retry_after`.
unfoldable pub rpm_retry_after :
    Option ℕ → Text → ℕ → List (Text × Window) → List (Text × Window) × Option ℕ
rpm_retry_after none key now m = (m, none)
rpm_retry_after (some limit) key now m =
    let kept = pruned now m in write_back key kept (charge limit now (rolled now (lookup key kept)))
