-- ===== src/Dispatch/Budget.antt =====
-- What one round of the dispatch costs of a budget of calls.
use heterion_router.Prelude.{
  ℕ, zero, suc, ◌+◌, ◌≡◌, refl, sym, Bool, true, false, ltb, Option, none, some, List, Text, arith,
  if◌then◌else◌,
}
use heterion_router.Breaker.Set
use heterion_router.Breaker.Set.{BreakerSet}
use heterion_router.Combos.{member}
use heterion_router.Json.{Value}
use heterion_router.Upstream.{GatewayError, is_transient, is_backend_outage}
use heterion_router.Dispatch.Request.{ChatCompletionRequest, attempt}
use heterion_router.Dispatch.Resolve.{Result, ok, err}
use heterion_router.Dispatch.Complete.{
  State, Outside, Progress, Turn, next_candidate, Locals, after_call, retry, round, round_admitted,
  admit, pause, attribute, or_head, note_failure, note_success,
}
use heterion_router.Dispatch.Clean.{IsClean, attempt-IsClean}

module _ {World Response : Type 0} (from_str : Text → Option Value)
    (outside : Outside World Response) where
  -- What survives all that `complete` does outside: a call of a backend that runs, with a clean
  -- request, costs one unit of the budget, and everything else is free.
  pub record IsBudgeted (backends : List Text) (P : ℕ → World → Type 0) : Type 0 where
    pub spend :
        (n : ℕ) (name : Text) (request : ChatCompletionRequest) (s : State World)
        → IsClean request
        → member name backends ≡ true
        → P (suc n) s.world
        → P n (outside.call name request s).0.world
    pub unspent : (n : ℕ) (w : World) → P (suc n) w → P n w
    pub clock : (n : ℕ) (s : State World) → P n s.world → P n (outside.now s).0.world
    pub connection :
        (n : ℕ) (name token : Text) (s : State World)
        → P n s.world
        → P n (outside.connection_id name token s).0.world
    pub dispatch_head :
        (n : ℕ) (name : Text) (s : State World)
        → P n s.world
        → P n (outside.dispatch_head name s).0.world
    pub asleep : (n ms : ℕ) (s : State World) → P n s.world → P n (outside.sleep ms s).world

  module _ (l : Locals) (P : ℕ → World → Type 0) (keeps : IsBudgeted l.backends P) where
    abbrev pub Again : Type 0
    Again = Option (Progress → State World → State World × Turn Response)

    pub spare : (m n : ℕ) (w : World) → m ≡ n → P m w → P n w
    spare m n w e h = rw (sym e) h

    choose-keeps :
        (n : ℕ) (b : Bool) (x y : State World)
        → P n x.world
        → P n y.world
        → P n (if b then x else y).world
    choose-keeps n true x y hx hy = hx
    choose-keeps n false x y hx hy = hy

    turn-keeps :
        (n : ℕ) (b : Bool) (x y : State World × Turn Response)
        → P n x.0.world
        → P n y.0.world
        → P n (if b then x else y).0.world
    turn-keeps n true x y hx hy = hx
    turn-keeps n false x y hx hy = hy

    pub unspent_all : (m n : ℕ) (w : World) → P (m + n) w → P n w
    unspent_all zero n w h = spare (0 + n) n w (omega arith) h
    unspent_all (suc m) n w h =
        unspent_all m n w
          (keeps.unspent (m + n) w (spare (suc m + n) (suc (m + n)) w (omega arith) h))

    or_head-keeps :
        (n : ℕ) (name : Text) (s : State World) (o : Option Text)
        → P n s.world
        → P n (or_head from_str outside name s o).0.world
    or_head-keeps n name s none h = keeps.dispatch_head n name s h
    or_head-keeps n name s (some id) h = h

    attribute-keeps :
        (n : ℕ) (t : Option Text) (name : Text) (c : Option Text) (s : State World)
        → P n s.world
        → P n (attribute from_str outside t name c s).world
    unfolding attribute
    attribute-keeps n none name c s h = h
    attribute-keeps n (some token) name c s h =
        let (s1, own) = outside.connection_id name token s in
        or_head-keeps n name s1 own (keeps.connection n name token s h)

    note_failure-keeps :
        (n : ℕ) (name : Text) (e : GatewayError) (s : State World)
        → P n s.world
        → P n (note_failure from_str outside name e s).world
    note_failure-keeps n name e s h =
        let (s1, now) = outside.now s in
        choose-keeps n (is_backend_outage from_str e)
          (record s1 { breakers = Set.record_failure s1.breakers name now }) s (keeps.clock n s h) h

    pause-keeps :
        (n : ℕ) (s : State World) → P n s.world → P n (pause from_str outside l.config s).world
    pause-keeps n s h =
        choose-keeps n (ltb 0 l.config.retry_delay_ms) (outside.sleep l.config.retry_delay_ms s) s
          (keeps.asleep n l.config.retry_delay_ms s h) h

    -- What the next round may cost, where there is one.
    abbrev pub IsAgain : ℕ → ℕ → Again → Type 0
    IsAgain m n none = Unit {0}
    IsAgain m n (some again) =
        (p : Progress) (s : State World) → P (m + n) s.world → P n (again p s).0.world

    abbrev pub again_cost : ℕ → ℕ
    again_cost m = if l.config.failover_before_retry then 0 else m

    retry_step :
        (m n : ℕ) (b : Bool) (again : Progress → State World → State World × Turn Response)
        (p : Progress) (s : State World)
        → IsAgain m n (some again)
        → P ((if b then 0 else m) + n) s.world
        → P n
            (if b
              then (s, next_candidate p)
              else again p (pause from_str outside l.config s)).0.world
    retry_step m n true again p s ha h = unspent_all 0 n s.world h
    retry_step m n false again p s ha h =
        ha p (pause from_str outside l.config s) (pause-keeps (m + n) s h)

    retry-keeps :
        (m n : ℕ) (again : Again) (p : Progress) (s : State World)
        → IsAgain m n again
        → P (again_cost m + n) s.world
        → P n (retry from_str outside l again p s).0.world
    retry-keeps m n none p s ha h = unspent_all (again_cost m) n s.world h
    retry-keeps m n (some again) p s ha h =
        retry_step m n l.config.failover_before_retry again p s ha h

    after_call-keeps :
        (m n : ℕ) (name : Text) (again : Again) (p : Progress) (x : State World × Result Response)
        → IsAgain m n again
        → P (again_cost m + n) x.0.world
        → P n (after_call from_str outside l name again p x).0.world
    after_call-keeps m n name again p (s, ok r) ha h =
        attribute-keeps n l.token name l.combo_name (note_success from_str outside name s)
          (unspent_all (again_cost m) n s.world h)
    after_call-keeps m n name again p (s, err e) ha h =
        let p1 : Progress = record p { last_error = some e } in
        let s1 = note_failure from_str outside name e s in
        let s2 = attribute from_str outside l.token name l.combo_name s1 in
        let h2 =
          attribute-keeps (again_cost m + n) l.token name l.combo_name s1
            (note_failure-keeps (again_cost m + n) name e s h) in
        turn-keeps n (is_transient from_str e) (retry from_str outside l again p1 s2)
          (s2, next_candidate p1) (retry-keeps m n again p1 s2 ha h2)
          (unspent_all (again_cost m) n s2.world h2)

    round_admitted-keeps :
        (m n : ℕ) (name target : Text) (again : Again) (p : Progress) (x : State World × Bool)
        → IsAgain m n again
        → P (suc (again_cost m + n)) x.0.world
        → P n (round_admitted from_str outside l name target again p x).0.world
    round_admitted-keeps m n name target again p (s, false) ha h =
        unspent_all (again_cost m) n s.world (keeps.unspent (again_cost m + n) s.world h)
    round_admitted-keeps m n name target again p (s, true) ha h =
        elim (member name l.backends)
            as (λ b.
              member name l.backends ≡ b
              → P n
                  (if b
                    then after_call from_str outside l name again p
                        (outside.call name (attempt l.request target) s)
                    else (s, next_candidate p)).0.world) [
                      | true ↦ λ e.
                          after_call-keeps m n name again p
                            (outside.call name (attempt l.request target) s) ha
                            (keeps.spend (again_cost m + n) name (attempt l.request target) s
                              (attempt-IsClean l.request target) e h)
                      | false ↦ λ e.
                          unspent_all (again_cost m) n s.world
                            (keeps.unspent (again_cost m + n) s.world h)
                    ]
          refl

    pub round-keeps :
        (m n : ℕ) (name target : Text) (again : Again) (p : Progress) (s : State World)
        → IsAgain m n again
        → P (suc (again_cost m + n)) s.world
        → P n (round from_str outside l name target again p s).0.world
    unfolding round
    round-keeps m n name target again p s ha h =
        round_admitted-keeps m n name target again p (admit from_str outside name s) ha
          (keeps.clock (suc (again_cost m + n)) s h)
