-- ===== src/Budgets/Windows.antt =====
-- What a key meets of the ceiling: its own window only, however many keys are tracked.
use heterion_router.Prelude.{
  ℕ, ◌+◌, ◌≤◌, max, ◌≡◌, refl, ◌∙◌, ap, none, some, List, [], ◌∷◌, Text, text_eq, text_eq_iff,
  if◌then◌else◌, lookup, insert, lookup-insert, arith,
}
use heterion_router.Budgets.Rpm.{Window, retain_open, pruned, rolled, charge, rpm_retry_after}

-- How many entries a key has: a map has one at most.
unfoldable pub entries_of : Text → List (Text × Window) → ℕ
entries_of key [] = 0
entries_of key ((k, w) ∷ m) = (if text_eq k key then 1 else 0) + entries_of key m

abbrev pub IsMap : List (Text × Window) → Type 0
IsMap m = (key : Text) → entries_of key m ≤ 1

-- The window that a request of the key would be charged to at a time.
abbrev pub current : Text → ℕ → List (Text × Window) → Window
current key now m = rolled now (lookup key m)

lookup-none : (key : Text) (m : List (Text × Window)) → entries_of key m ≡ 0 → lookup key m ≡ none
unfolding lookup entries_of
lookup-none key [] h = refl
lookup-none key ((k, w) ∷ m) h = ground (arith, lookup-none key m)

entries_of-retain :
    (key : Text) (now : ℕ) (m : List (Text × Window))
    → entries_of key (retain_open now m) ≤ entries_of key m
unfolding retain_open entries_of
entries_of-retain key now [] = omega arith
entries_of-retain key now ((k, w) ∷ m) = ground (arith, entries_of-retain key now m)

entries_of-insert :
    (key other : Text) (w : Window) (m : List (Text × Window))
    → entries_of other (insert key w m)
      ≡ (if text_eq key other then max 1 (entries_of other m) else entries_of other m)
unfolding insert entries_of
entries_of-insert key other w [] = ground arith
entries_of-insert key other w ((k, v) ∷ m) = ground (
  arith,
  text_eq_iff k key,
  text_eq_iff key other,
  text_eq_iff k other,
  entries_of-insert key other w m,
)

-- Dropping the windows that have ended changes no window, now or later.
current-retain :
    (key : Text) (now later : ℕ) (m : List (Text × Window))
    → now ≤ later
    → entries_of key m ≤ 1
    → current key later (retain_open now m) ≡ current key later m
unfolding retain_open lookup entries_of
current-retain key now later [] h u = refl
current-retain key now later ((k, w) ∷ m) h u = ground (
  arith,
  current-retain key now later m,
  lookup-none key m,
  lookup-none key (retain_open now m),
  entries_of-retain key now m,
)

current-pruned :
    (key : Text) (now later : ℕ) (m : List (Text × Window))
    → now ≤ later
    → IsMap m
    → current key later (pruned now m) ≡ current key later m
current-pruned key now later m h u = ground (arith, current-retain key now later m h (u key))

pruned-IsMap : (now : ℕ) (m : List (Text × Window)) → IsMap m → IsMap (pruned now m)
pruned-IsMap now m u key = ground (arith, entries_of-retain key now m, u key)

insert-IsMap :
    (key : Text) (w : Window) (m : List (Text × Window)) → IsMap m → IsMap (insert key w m)
insert-IsMap key w m u other = ground (arith, entries_of-insert key other w m, u other)

current-insert :
    (key other : Text) (w : Window) (later : ℕ) (m : List (Text × Window))
    → current other later (insert key w m)
      ≡ (if text_eq key other then rolled later (some w) else current other later m)
current-insert key other w later m = ground (arith, lookup-insert key other w m)

module _ (limit : ℕ) (key : Text) (now : ℕ) (m : List (Text × Window)) (u : IsMap m) where
  -- A request of a key is decided by the key's own window alone, and changes that window alone, now
  -- and at every later time, whether or not other keys' windows are dropped on the way.
  pub rpm_verdict :
      (rpm_retry_after (some limit) key now m).1 ≡ (charge limit now (current key now m)).1
  unfolding rpm_retry_after
  rpm_verdict = ap (λ w. (charge limit now w).1) (current-pruned key now now m (omega arith) u)

  pub rpm-IsMap : IsMap (rpm_retry_after (some limit) key now m).0
  unfolding rpm_retry_after
  rpm-IsMap = insert-IsMap key _ (pruned now m) (pruned-IsMap now m u)

  pub rpm_current :
      (other : Text) (later : ℕ)
      → now ≤ later
      → current other later (rpm_retry_after (some limit) key now m).0 ≡ (
          if text_eq key other
          then rolled later (some (charge limit now (current key now m)).0)
          else current other later m)
  unfolding rpm_retry_after
  rpm_current other later h =
      current-insert key other _ later (pruned now m)
      ∙ ap
          (λ w.
            if text_eq key other
            then rolled later (some (charge limit now w).0)
            else current other later (pruned now m))
          (current-pruned key now now m (omega arith) u)
      ∙ ap
          (λ w.
            if text_eq key other
            then rolled later (some (charge limit now (current key now m)).0)
            else w)
          (current-pruned other now later m h u)
