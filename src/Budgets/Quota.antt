-- ===== src/Budgets/Quota.antt =====
-- How many requests a window serves, and when a refused key is served again.
use heterion_router.Prelude.{
  ℕ, suc, ◌+◌, ◌-◌, ◌≤◌, ◌<◌, max, min, ◌≡◌, refl, sym, ◌∙◌, ap, Bool, true, false, ◌&&◌, Option,
  none, some, List, [], ◌∷◌, Text, text_eq, text_eq_refl, text_eq_iff, leb, ltb, if◌then◌else◌,
  arith,
}
use heterion_router.Budgets.Rpm.{rpm_window_secs, Window, fresh, rolled, charge, rpm_retry_after}
use heterion_router.Budgets.Windows.{IsMap, current, rpm_verdict, rpm-IsMap, rpm_current}

-- Requests in their order, each with its key and its time.
abbrev Requests : Type 0
Requests = List (Text × ℕ)

abbrev pub is_served : Option ℕ → Bool
is_served none = true
is_served (some retry_after) = false

-- How many requests of a key are served, when every key has a ceiling.
unfoldable pub served : (Text → ℕ) → Text → Requests → List (Text × Window) → ℕ
served limit key [] m = 0
served limit key ((k, now) ∷ rest) m =
    let (m1, verdict) = rpm_retry_after (some (limit k)) k now m in
    (if text_eq k key && is_served verdict then 1 else 0) + served limit key rest m1

unfoldable pub asked : Text → Requests → ℕ
asked key [] = 0
asked key ((k, now) ∷ rest) = (if text_eq k key then 1 else 0) + asked key rest

-- The clock does not go back, and the window that opened at `opened` has not ended.
abbrev pub Within : ℕ → ℕ → Requests → Type 0
Within opened from [] = Unit {0}
Within opened from ((k, now) ∷ rest) =
    (from ≤ now) × (now < opened + rpm_window_secs) × Within opened now rest

module _ (limit : Text → ℕ) (key : Text) where
  -- The key's window, until it ends.
  abbrev Holds : ℕ → ℕ → ℕ → List (Text × Window) → Type 0
  Holds opened used from m =
      (t : ℕ)
      → from ≤ t
      → t < opened + rpm_window_secs
      → current key t m ≡ record { started = opened; used = used }

  still_open :
      (opened used t : ℕ)
      → t < opened + rpm_window_secs
      → rolled t (some (record { started = opened; used = used }))
        ≡ record { started = opened; used = used }
  still_open opened used t h = ground arith

  abbrev after : ℕ → ℕ
  after used = if leb (limit key) used then used else used + 1

  charged :
      (opened used now : ℕ)
      → ((charge (limit key) now (record { started = opened; used = used })).0
          ≡ record { started = opened; used = after used })
        × (is_served (charge (limit key) now (record { started = opened; used = used })).1
            ≡ ltb used (limit key))
  charged opened used now = ground arith

  own_window :
      (opened used from now t : ℕ) (k : Text) (m : List (Text × Window)) (b : Bool)
      → text_eq k key ≡ b
      → from ≤ now
      → now ≤ t
      → t < opened + rpm_window_secs
      → Holds opened used from m
      → (if b then rolled t (some (charge (limit k) now (current k now m)).0) else current key t m)
        ≡ record { started = opened; used = if b then after used else used }
  own_window opened used from now t k m true e hf ht hw hold = rw ((text_eq_iff k key).0 e) (
      rw (hold now hf (omega (arith, ht, hw)), (charged opened used now).0)
        (still_open opened (after used) t hw))
  own_window opened used from now t k m false e hf ht hw hold = hold t (omega (arith, hf, ht)) hw

  step_Holds :
      (opened used from now : ℕ) (k : Text) (m : List (Text × Window))
      → IsMap m
      → from ≤ now
      → Holds opened used from m
      → Holds opened
          (if text_eq k key then after used else used)
          now
          (rpm_retry_after (some (limit k)) k now m).0
  step_Holds opened used from now k m u hf hold t ht hw =
      rpm_current (limit k) k now m u key t ht
      ∙ own_window opened used from now t k m (text_eq k key) refl hf ht hw hold

  own_verdict :
      (opened used from now : ℕ) (k : Text) (m : List (Text × Window)) (b : Bool)
      → IsMap m
      → text_eq k key ≡ b
      → from ≤ now
      → now < opened + rpm_window_secs
      → Holds opened used from m
      → (b && is_served (rpm_retry_after (some (limit k)) k now m).1) ≡ (b && ltb used (limit key))
  own_verdict opened used from now k m true u e hf hn hold =
      ap is_served (rpm_verdict (limit k) k now m u)
      ∙ rw ((text_eq_iff k key).0 e) (rw (hold now hf hn) (charged opened used now).1)
  own_verdict opened used from now k m false u e hf hn hold = refl

  quota_step :
      (b : Bool) (used n rest : ℕ)
      → rest ≡ min (limit key - (if b then after used else used)) n
      → (if b && ltb used (limit key) then 1 else 0) + rest
        ≡ min (limit key - used) ((if b then 1 else 0) + n)
  quota_step true used n rest h = ground arith
  quota_step false used n rest h = ground arith

  window_quota :
      (opened used from : ℕ) (reqs : Requests) (m : List (Text × Window))
      → IsMap m
      → Within opened from reqs
      → Holds opened used from m
      → served limit key reqs m ≡ min (limit key - used) (asked key reqs)
  unfolding served asked
  window_quota opened used from [] m u w hold = omega arith
  window_quota opened used from ((k, now) ∷ rest) m u (hf, hn, w) hold =
      rw (own_verdict opened used from now k m (text_eq k key) u refl hf hn hold) (
        quota_step (text_eq k key) used (asked key rest) _ (
          window_quota opened (if text_eq k key then after used else used) now rest
            (rpm_retry_after (some (limit k)) k now m).0 (rpm-IsMap (limit k) k now m u) w
            (step_Holds opened used from now k m u hf hold)))

  first_Holds :
      (opened : ℕ) (m : List (Text × Window))
      → IsMap m
      → current key opened m ≡ fresh opened
      → Holds opened (after 0) opened (rpm_retry_after (some (limit key)) key opened m).0
  first_Holds opened m u h t ht hw =
      rpm_current (limit key) key opened m u key t ht
      ∙ rw (text_eq_refl key, h, (charged opened 0 opened).0) (still_open opened (after 0) t hw)

  first_verdict :
      (opened : ℕ) (m : List (Text × Window))
      → IsMap m
      → current key opened m ≡ fresh opened
      → is_served (rpm_retry_after (some (limit key)) key opened m).1 ≡ ltb 0 (limit key)
  first_verdict opened m u h =
      ap is_served (rpm_verdict (limit key) key opened m u) ∙ rw h (charged opened 0 opened).1

  first_step :
      (n rest : ℕ)
      → rest ≡ min (limit key - after 0) n
      → (if ltb 0 (limit key) then 1 else 0) + rest ≡ min (limit key) (suc n)
  first_step n rest h = ground arith

  -- From the request that opens a key's window to the window's end, 60 seconds later, exactly as many
  -- of the key's requests are served as its ceiling allows, or all when they are fewer, whatever
  -- other keys ask in between and however many windows are tracked. The clock does not go back.
  pub rpm_quota :
      (opened : ℕ) (rest : Requests) (m : List (Text × Window))
      → IsMap m
      → current key opened m ≡ fresh opened
      → Within opened opened rest
      → served limit key ((key, opened) ∷ rest) m ≡ min (limit key) (suc (asked key rest))
  unfolding served
  rpm_quota opened rest m u h w =
      rw (text_eq_refl key, first_verdict opened m u h)
        (first_step (asked key rest) _ (
          window_quota opened (after 0) opened rest
            (rpm_retry_after (some (limit key)) key opened m).0
            (rpm-IsMap (limit key) key opened m u) w (first_Holds opened m u h)))

-- After a refusal that says to wait, the window as it stands.
refused_window :
    (limit now retry_after : ℕ) (w : Window)
    → (charge limit now w).1 ≡ some retry_after
    → ((charge limit now w).0 ≡ w)
      × (limit ≤ w.used)
      × (retry_after ≡ max (w.started + rpm_window_secs - now) 1)
refused_window limit now retry_after w h = ground arith

next_verdict :
    (limit now later retry_after : ℕ) (w : Window)
    → 1 ≤ limit
    → w.started ≤ now
    → now < w.started + rpm_window_secs
    → now ≤ later
    → limit ≤ w.used
    → retry_after ≡ max (w.started + rpm_window_secs - now) 1
    → is_served (charge limit later (rolled later (some w))).1 ≡ leb (now + retry_after) later
next_verdict limit now later retry_after w hl hs hw ht hu hr = ground arith

rolled_open : (now : ℕ) (o : Option Window) → now < (rolled now o).started + rpm_window_secs
rolled_open now none = omega arith
rolled_open now (some w) = ground arith

-- The seconds that a refusal names are exact: the key's next request is served if it comes that much
-- later or after that, and is refused if it comes sooner. The ceiling is at least 1, and the
-- clock does not go back.
pub retry_after_exact :
    (limit : ℕ) (key : Text) (now later retry_after : ℕ) (m : List (Text × Window))
    → IsMap m
    → 1 ≤ limit
    → (current key now m).started ≤ now
    → now ≤ later
    → (rpm_retry_after (some limit) key now m).1 ≡ some retry_after
    → is_served
        (rpm_retry_after (some limit) key later (rpm_retry_after (some limit) key now m).0).1
      ≡ leb (now + retry_after) later
retry_after_exact limit key now later retry_after m u hl hs ht h =
    let w = current key now m in
    let m1 = (rpm_retry_after (some limit) key now m).0 in
    let (same, full, r) =
      refused_window limit now retry_after w (sym (rpm_verdict limit key now m u) ∙ h) in
    let e : current key later m1 ≡ rolled later (some w) =
      rpm_current limit key now m u key later ht
      ∙ rw (text_eq_refl key) (ap (λ v. rolled later (some v)) same) in
    ap is_served (rpm_verdict limit key later m1 (rpm-IsMap limit key now m u))
    ∙ ap (λ v. is_served (charge limit later v).1) e
    ∙ next_verdict limit now later retry_after w hl hs (rolled_open now _) ht full r
