-- ===== src/Budgets/Warnings.antt =====
-- A warning is given once.
use heterion_router.Prelude.{
  ℕ, ◌≡◌, refl, ◌∙◌, ap, Bool, true, false, ◌==◌, Option, none, some, Text, arith, if◌then◌else◌,
}
use heterion_router.Budgets.Calendar.{Period, period_start}
use heterion_router.Budgets.Judge.{
  Floats, BudgetRow, Store, map_budget, mapped, get_budget, already_warned, stamped, warn_row,
  warn_once,
}

module _ {F Db : Type 0} (floats : Floats F) (store : Store Db F) where
  abbrev pub stamp : ℕ → ℕ → Option (Option (BudgetRow F)) → Option (Option (BudgetRow F))
  stamp now start none = none
  stamp now start (some none) = some none
  stamp now start (some (some row)) =
      some (some (record row { warning_emitted_at = some now; warning_period_start = some start }))

  -- `UPDATE domain_budgets SET warning_emitted_at = …, warning_period_start = … WHERE api_key_id = …`.
  abbrev pub Stamps : Type 0
  Stamps =
      (db after : Db) (key : Text) (now start : ℕ)
      → store.mark_warning_emitted db key now start ≡ some after
      → store.stored_row after key ≡ stamp now start (store.stored_row db key)

  -- A key's row, if there is one, is stamped for the period that starts then.
  abbrev IsStamped : ℕ → Option (Option (BudgetRow F)) → Type 0
  IsStamped start none = Unit {0}
  IsStamped start (some none) = Unit {0}
  IsStamped start (some (some row)) = already_warned floats store row start ≡ true

  same_start : (n : ℕ) → (n == n) ≡ true
  same_start n = ground arith

  no_true : false ≡ true → ⊥
  no_true h = cc h

  not_emitted : {db after : Db} → ◌≡◌ {A = Db × Bool} (db, false) (after, true) → ⊥
  not_emitted h = no_true (ap (λ x. x.1) h)

  emitted_choice :
      (db after : Db) (o : Option Db) → stamped floats store db o ≡ (after, true) → o ≡ some after
  emitted_choice db after none h = absurd (not_emitted h)
  emitted_choice db after (some d) h = ap (λ x. some x.0) h

  warned_choice :
      (b : Bool) (db after : Db) (o : Option Db)
      → (if b then (db, false) else stamped floats store db o) ≡ (after, true)
      → o ≡ some after
  warned_choice true db after o h = absurd (not_emitted h)
  warned_choice false db after o h = emitted_choice db after o h

  stamp-IsStamped :
      (now start : ℕ) (o : Option (Option (BudgetRow F)))
      → IsStamped start (mapped floats store (stamp now start o))
  unfolding map_budget
  stamp-IsStamped now start none = tt
  stamp-IsStamped now start (some none) = tt
  stamp-IsStamped now start (some (some row)) = same_start start

  silent_when_stamped :
      (db : Db) (key : Text) (now start : ℕ) (o : Option (Option (BudgetRow F)))
      → IsStamped start o
      → warn_row floats store db key now start o ≡ (db, false)
  silent_when_stamped db key now start none h = refl
  silent_when_stamped db key now start (some none) h = refl
  silent_when_stamped db key now start (some (some row)) h = rw h refl

  emitted_marks :
      (db after : Db) (key : Text) (now start : ℕ) (o : Option (Option (BudgetRow F)))
      → warn_row floats store db key now start o ≡ (after, true)
      → store.mark_warning_emitted db key now start ≡ some after
  emitted_marks db after key now start none h = absurd (not_emitted h)
  emitted_marks db after key now start (some none) h = absurd (not_emitted h)
  emitted_marks db after key now start (some (some row)) h =
      warned_choice (already_warned floats store row start) db after
        (store.mark_warning_emitted db key now start) h

  -- Once a warning was given for a period, a call in the same period on any database in which the
  -- key's row is as the first call left it, whatever else changed, answers no and changes nothing.
  pub warn_once-again :
      (db after between : Db) (key : Text) (p : Period) (now later : ℕ)
      → Stamps
      → period_start p later ≡ period_start p now
      → warn_once floats store db key p now ≡ (after, true)
      → store.stored_row between key ≡ store.stored_row after key
      → warn_once floats store between key p later ≡ (between, false)
  unfolding warn_once get_budget
  warn_once-again db after between key p now later law e h same =
      let start = period_start p now in
      let row : store.stored_row between key ≡ stamp now start (store.stored_row db key) =
        same
        ∙ law db after key now start (
            emitted_marks db after key now start (mapped floats store (store.stored_row db key))
              h) in
      rw (e, row)
        (silent_when_stamped between key later start
          (mapped floats store (stamp now start (store.stored_row db key)))
          (stamp-IsStamped now start (store.stored_row db key)))
