-- ===== src/Budgets/Verdicts.antt =====
-- What a verdict on a key's spending says.
use heterion_router.Prelude.{
  ℕ, ◌≡◌, ◌⊎◌, inl, inr, refl, Bool, true, false, not, ◌&&◌, Option, none, some, List, [], ◌∷◌,
  Text, if◌then◌else◌,
}
use mathlib.Core.List.{Memᴰ}
use mathlib.Core.List.Memᴰ
use heterion_router.Budgets.Calendar.{Period, period_start}
use heterion_router.Budgets.Judge.{
  Floats, BudgetRow, Store, Verdict, allow, warn, blocked, limit_for, warning_fraction, get_budget,
  judge, judge_spent, judge_row, evaluate, or_allow, no_warning, all_periods,
}

module _ {F Db : Type 0} (floats : Floats F) (store : Store Db F) (db : Db) (key : Text)
    (now : ℕ) where
  abbrev pub spent_in : Period → Option F
  spent_in period = store.spend_since db key (period_start period now)

  module _ (budget : BudgetRow F) where
    abbrev pub IsCapped : Period → Bool → Type 0
    IsCapped p b = floats.is_positive (limit_for floats budget p) ≡ b

    -- The period has a cap, and the spending since its start has reached it.
    pub record Over (p : Period) (spent limit : F) : Type 0 where
      pub capped : IsCapped p true
      pub cap : limit ≡ limit_for floats budget p
      pub ledger : spent_in p ≡ some spent
      pub reached : floats.ge spent limit ≡ true

    -- The spending has reached the warning fraction of the cap, but not the cap.
    pub record Near (p : Period) (spent limit : F) : Type 0 where
      pub capped : IsCapped p true
      pub cap : limit ≡ limit_for floats budget p
      pub ledger : spent_in p ≡ some spent
      pub below : floats.ge spent limit ≡ false
      pub warned : floats.ge spent (floats.mul limit (warning_fraction floats budget)) ≡ true

    pub data Within (p : Period) : Type 0 where
      uncapped : IsCapped p false → Within p
      below :
          (spent : F)
          → spent_in p ≡ some spent
          → floats.ge spent (limit_for floats budget p) ≡ false
          → Within p

    -- A cap cannot be judged, because the ledger cannot be read.
    pub record Unread : Type 0 where
      pub period : Period
      pub capped : IsCapped period true
      pub failed : spent_in period ≡ none

    abbrev pub AllWithin : List Period → Type 0
    AllWithin ps = (p : Period) → Memᴰ p ps → Within p

    -- What each verdict says of the periods.
    abbrev pub Says : List Period → Verdict F → Type 0
    Says ps (blocked p spent limit) = Memᴰ p ps × Over p spent limit
    Says ps (warn p spent limit) = Near p spent limit × AllWithin ps
    Says ps allow = AllWithin ps ⊎ Unread

    abbrev IsWarning : Option (Verdict F) → Type 0
    IsWarning none = Unit {0}
    IsWarning (some (warn p spent limit)) = Near p spent limit
    IsWarning (some (blocked p spent limit)) = ⊥
    IsWarning (some allow) = ⊥

    Within-cons : (p : Period) (ps : List Period) → Within p → AllWithin ps → AllWithin (p ∷ ps)
    Within-cons p ps h hs q (Memᴰ.head e) = rw e h
    Within-cons p ps h hs q (Memᴰ.tail m) = hs q m

    Says-cons :
        (p : Period) (ps : List Period) (v : Verdict F) → Within p → Says ps v → Says (p ∷ ps) v
    Says-cons p ps (blocked q spent limit) h (m, o) = (Memᴰ.tail m, o)
    Says-cons p ps (warn q spent limit) h (n, hs) = (n, Within-cons p ps h hs)
    Says-cons p ps allow h (inl hs) = inl (Within-cons p ps h hs)
    Says-cons p ps allow h (inr u) = inr u

    Says-end : (w : Option (Verdict F)) → IsWarning w → Says [] (or_allow floats store w)
    Says-end none h = inl (λ p m. absurd (Memᴰ.not-nil m))
    Says-end (some (warn p spent limit)) h = (h, λ q m. absurd (Memᴰ.not-nil m))
    Says-end (some (blocked p spent limit)) h = absurd h
    Says-end (some allow) h = absurd h

    abbrev Rest : Type 0
    Rest = Option (Verdict F) → Verdict F

    choice-IsWarning :
        (b c : Bool) (p : Period) (spent : F) (w : Option (Verdict F))
        → IsWarning w
        → (b ≡ true → Near p spent (limit_for floats budget p))
        → IsWarning (if b && c then some (warn p spent (limit_for floats budget p)) else w)
    choice-IsWarning true true p spent w h n = n refl
    choice-IsWarning true false p spent w h n = h
    choice-IsWarning false c p spent w h n = h

    capped_choice :
        (p : Period) (ps : List Period) (rest : Rest) (w : Option (Verdict F)) (spent : F)
        (b : Bool)
        → IsWarning w
        → IsCapped p true
        → spent_in p ≡ some spent
        → floats.ge spent (limit_for floats budget p) ≡ b
        → ((v : Option (Verdict F)) → IsWarning v → Says ps (rest v))
        → Says (p ∷ ps) (
            if b
            then blocked p spent (limit_for floats budget p)
            else rest (
                if floats.ge spent
                    (floats.mul (limit_for floats budget p) (warning_fraction floats budget))
                  && no_warning floats store w
                then some (warn p spent (limit_for floats budget p))
                else w))
    capped_choice p ps rest w spent true hw c l e hr =
        (Memᴰ.head refl, record { capped = c; cap = refl; ledger = l; reached = e })
    capped_choice p ps rest w spent false hw c l e hr = Says-cons p ps _ (below spent l e) (
        hr _ (
          choice-IsWarning
            (floats.ge spent
              (floats.mul (limit_for floats budget p) (warning_fraction floats budget)))
            (no_warning floats store w) p spent w hw
            (λ n. record { capped = c; cap = refl; ledger = l; below = e; warned = n })))

    spent_choice :
        (p : Period) (ps : List Period) (rest : Rest) (w : Option (Verdict F)) (o : Option F)
        → IsWarning w
        → IsCapped p true
        → spent_in p ≡ o
        → ((v : Option (Verdict F)) → IsWarning v → Says ps (rest v))
        → Says (p ∷ ps) (judge_spent floats store budget p rest w o)
    spent_choice p ps rest w none hw c l hr = inr (record { period = p; capped = c; failed = l })
    spent_choice p ps rest w (some spent) hw c l hr =
        capped_choice p ps rest w spent (floats.ge spent (limit_for floats budget p)) hw c l refl hr

    period_choice :
        (p : Period) (ps : List Period) (rest : Rest) (w : Option (Verdict F)) (b : Bool)
        → IsWarning w
        → IsCapped p b
        → ((v : Option (Verdict F)) → IsWarning v → Says ps (rest v))
        → Says
            (p ∷ ps)
            (if not b then rest w else judge_spent floats store budget p rest w (spent_in p))
    period_choice p ps rest w true hw c hr = spent_choice p ps rest w (spent_in p) hw c refl hr
    period_choice p ps rest w false hw c hr = Says-cons p ps (rest w) (uncapped c) (hr w hw)

    judge-Says :
        (ps : List Period) (w : Option (Verdict F))
        → IsWarning w
        → Says ps (judge floats store db key now budget ps w)
    unfolding judge
    judge-Says [] w h = Says-end w h
    judge-Says (p ∷ ps) w h =
        period_choice p ps (judge floats store db key now budget ps) w
          (floats.is_positive (limit_for floats budget p)) h refl (judge-Says ps)

  -- What a verdict says of a key's budget row, or that there is none to judge by.
  pub data Judged (v : Verdict F) : Type 0 where
    by_row :
        (budget : BudgetRow F)
        → get_budget floats store db key ≡ some (some budget)
        → Says budget all_periods v
        → Judged v
    no_row :
        v ≡ allow
        → (get_budget floats store db key ≡ some none) ⊎ (get_budget floats store db key ≡ none)
        → Judged v

  row-Judged :
      (o : Option (Option (BudgetRow F)))
      → get_budget floats store db key ≡ o
      → Judged (judge_row floats store db key now o)
  row-Judged none e = no_row refl (inr e)
  row-Judged (some none) e = no_row refl (inl e)
  row-Judged (some (some budget)) e = by_row budget e (judge-Says budget all_periods none tt)

  -- A key is blocked only for a period whose cap its spending has reached, and warned only when no
  -- capped period is over and one has reached the warning fraction. It is allowed only when no capped
  -- period is over, or when there is no budget row, or when the row or the ledger cannot be read.
  pub evaluate-Judged : Judged (evaluate floats store db key now)
  unfolding evaluate
  evaluate-Judged = row-Judged (get_budget floats store db key) refl
