-- ===== src/Dispatch/Explained.antt =====
-- When no candidate is tried at all, and where the answer of `complete` comes from.
use heterion_router.Prelude.{
  ℕ, zero, suc, ◌≡◌, refl, ap, Bool, true, false, Option, none, some, List, [], ◌∷◌, Text,
  if◌then◌else◌,
}
use heterion_router.Combos.{member}
use heterion_router.Json.{Value}
use heterion_router.Upstream.{GatewayError, is_transient}
use heterion_router.Dispatch.Request.{ChatCompletionRequest, attempt}
use heterion_router.Dispatch.Resolve.{Plan, Result, ok, err, RoutingBackend, resolve}
use heterion_router.Dispatch.Complete.{
  State, Outside, Progress, Turn, served, next_candidate, Locals, after_call, retry, round,
  round_admitted, admit, pause, attribute, note_failure, try_candidate, try_steps, onward, error_of,
  outcome, locals_of, no_progress, complete, all_candidates_tripped, no_candidate,
}
use mathlib.Core.List.{Memᴰ}
use mathlib.Core.List.Memᴰ
use heterion_router.Dispatch.Outcome.{
  Answered, Refused, Served, IsProgress, IsTurn, try_steps-IsTurn,
}

module _ {World Response : Type 0} (from_str : Text → Option Value)
    (outside : Outside World Response) (l : Locals) where
  abbrev Again : Type 0
  Again = Option (Progress → State World → State World × Turn Response)

  -- A turn that ends without an error and without a refusal went by candidates that do not run.
  abbrev IsSilent : Progress → Type 0
  IsSilent p = (p.last_error ≡ none) × (p.tripped ≡ false)

  abbrev Silent : Text → Progress → State World × Turn Response → Type 0
  Silent name p (s, served r) = Unit {0}
  Silent name p (s, next_candidate p1) = IsSilent p1 → IsSilent p × (member name l.backends ≡ false)

  choice-Silent :
      (b : Bool) (name : Text) (p : Progress) (x y : State World × Turn Response)
      → Silent name p x
      → Silent name p y
      → Silent name p (if b then x else y)
  choice-Silent true name p x y hx hy = hx
  choice-Silent false name p x y hx hy = hy

  abbrev IsAgain : Text → Again → Type 0
  IsAgain name none = Unit {0}
  IsAgain name (some again) = (p : Progress) (s : State World) → Silent name p (again p s)

  -- What begins with an error does not end in silence.
  loud :
      (name : Text) (p p1 : Progress) (x : State World × Turn Response)
      → ¬ IsSilent p1
      → Silent name p1 x
      → Silent name p x
  loud name p p1 (s, served r) n h = tt
  loud name p p1 (s, next_candidate p2) n h = λ q. absurd (n (h q).0)

  retry-Silent :
      (name : Text) (again : Again) (p p1 : Progress) (s : State World)
      → IsAgain name again
      → ¬ IsSilent p1
      → Silent name p (retry from_str outside l again p1 s)
  retry-Silent name none p p1 s ha n = λ q. absurd (n q)
  retry-Silent name (some again) p p1 s ha n =
      choice-Silent l.config.failover_before_retry name p (s, next_candidate p1)
        (again p1 (pause from_str outside l.config s)) (λ q. absurd (n q))
        (loud name p p1 (again p1 (pause from_str outside l.config s)) n
          (ha p1 (pause from_str outside l.config s)))

  after_call-Silent :
      (name : Text) (again : Again) (p : Progress) (x : State World × Result Response)
      → IsAgain name again
      → Silent name p (after_call from_str outside l name again p x)
  after_call-Silent name again p (s, ok r) ha = tt
  after_call-Silent name again p (s, err error) ha =
      let p1 : Progress = record p { last_error = some error } in
      let s1 =
        attribute from_str outside l.token name l.combo_name
          (note_failure from_str outside name error s) in
      let n : ¬ IsSilent p1 = λ q. cc q.0 in
      choice-Silent (is_transient from_str error) name p (retry from_str outside l again p1 s1)
        (s1, next_candidate p1) (retry-Silent name again p p1 s1 ha n) (λ q. absurd (n q))

  round_admitted-Silent :
      (name target : Text) (again : Again) (p : Progress) (x : State World × Bool)
      → IsAgain name again
      → Silent name p (round_admitted from_str outside l name target again p x)
  round_admitted-Silent name target again p (s, false) ha = λ q. absurd (cc q.1)
  round_admitted-Silent name target again p (s, true) ha =
      elim (member name l.backends)
          as (λ b.
            member name l.backends ≡ b
            → Silent name p (
                if b
                then after_call from_str outside l name again p
                    (outside.call name (attempt l.request target) s)
                else (s, next_candidate p))) [
                  | true ↦ λ e.
                      after_call-Silent name again p
                        (outside.call name (attempt l.request target) s) ha
                  | false ↦ λ e q. (q, e)
                ]
        refl

  try_candidate-Silent :
      (left : ℕ) (name target : Text) (p : Progress) (s : State World)
      → Silent name p (try_candidate from_str outside left l name target p s)
  unfolding try_candidate round
  try_candidate-Silent zero name target p s =
      round_admitted-Silent name target none p (admit from_str outside name s) tt
  try_candidate-Silent (suc left) name target p s =
      round_admitted-Silent name target (some (try_candidate from_str outside left l name target)) p
        (admit from_str outside name s) (try_candidate-Silent left name target)

  -- No candidate of the plan runs.
  abbrev pub NobodyRuns : List (Text × Text) → Type 0
  NobodyRuns plan = (name target : Text) → Memᴰ (name, target) plan → member name l.backends ≡ false

  abbrev SilentSteps : List (Text × Text) → Progress → State World × Turn Response → Type 0
  SilentSteps steps p (s, served r) = Unit {0}
  SilentSteps steps p (s, next_candidate p1) = IsSilent p1 → IsSilent p × NobodyRuns steps

  nobody-cons :
      (name target : Text) (steps : List (Text × Text))
      → member name l.backends ≡ false
      → NobodyRuns steps
      → NobodyRuns ((name, target) ∷ steps)
  nobody-cons name target steps h hs n t (Memᴰ.head e) = rw (ap (λ x. x.0) e) h
  nobody-cons name target steps h hs n t (Memᴰ.tail m) = hs n t m

  steps_after :
      (name target : Text) (steps : List (Text × Text)) (p p1 : Progress)
      (y : State World × Turn Response)
      → (IsSilent p1 → IsSilent p × (member name l.backends ≡ false))
      → SilentSteps steps p1 y
      → SilentSteps ((name, target) ∷ steps) p y
  steps_after name target steps p p1 (s, served r) h hy = tt
  steps_after name target steps p p1 (s, next_candidate p2) h hy =
      λ q. ((h (hy q).0).0, nobody-cons name target steps (h (hy q).0).1 (hy q).1)

  onward-Silent :
      (name target : Text) (steps : List (Text × Text)) (p : Progress)
      (rest : Progress → State World → State World × Turn Response)
      (x : State World × Turn Response)
      → ((p1 : Progress) (s : State World) → SilentSteps steps p1 (rest p1 s))
      → Silent name p x
      → SilentSteps ((name, target) ∷ steps) p (onward from_str outside rest x)
  onward-Silent name target steps p rest (s, served r) h hx = tt
  onward-Silent name target steps p rest (s, next_candidate p1) h hx =
      steps_after name target steps p p1 (rest p1 s) hx (h p1 s)

  try_steps-Silent :
      (steps : List (Text × Text)) (p : Progress) (s : State World)
      → SilentSteps steps p (try_steps from_str outside l steps p s)
  unfolding try_steps
  try_steps-Silent [] p s = λ q. (q, λ n t m. absurd (Memᴰ.not-nil m))
  try_steps-Silent ((name, target) ∷ steps) p s =
      onward-Silent name target steps p (try_steps from_str outside l steps)
        (try_candidate from_str outside l.config.max_retries l name target p s)
        (try_steps-Silent steps) (try_candidate-Silent l.config.max_retries name target p s)

-- Where an answer comes from.
pub data Explained {World Response : Type 0} (from_str : Text → Option Value)
    (outside : Outside World Response) (l : Locals) (plan : List (Text × Text))
    : State World × Result Response → Type 0 where
  response :
      {s : State World} {r : Response}
      → Served from_str outside l plan s r
      → Explained from_str outside l plan (s, ok r)
  failure :
      {s : State World} {e : GatewayError}
      → Answered from_str outside l plan (err e)
      → Explained from_str outside l plan (s, err e)
  cooldown :
      {s : State World}
      → Refused from_str outside l plan
      → Explained from_str outside l plan (s, err (all_candidates_tripped l.request.model))
  nobody :
      {s : State World}
      → NobodyRuns from_str outside l plan
      → Explained from_str outside l plan (s, err (no_candidate l.request.model))

module _ {World Response : Type 0} (from_str : Text → Option Value)
    (outside : Outside World Response) where
  error-Explained :
      (l : Locals) (plan : List (Text × Text)) (s : State World) (p : Progress)
      (last : Option GatewayError) (tripped : Bool)
      → p.last_error ≡ last
      → p.tripped ≡ tripped
      → IsProgress from_str outside l plan p
      → (IsSilent from_str outside l p → NobodyRuns from_str outside l plan)
      → Explained from_str outside l plan (s, err (error_of from_str outside l.request.model p))
  error-Explained l plan s p (some e) t h k hp n = rw h (failure (hp.error e h))
  error-Explained l plan s p none true h k hp n = rw (h, k) (cooldown (hp.refused k))
  error-Explained l plan s p none false h k hp n = rw (h, k) (nobody (n (h, k)))

  outcome-Explained :
      (l : Locals) (plan : List (Text × Text)) (x : State World × Turn Response)
      → IsTurn from_str outside l plan x
      → SilentSteps from_str outside l plan (no_progress from_str outside) x
      → Explained from_str outside l plan (outcome from_str outside l.request.model x)
  outcome-Explained l plan (s, served r) hx q = response hx
  outcome-Explained l plan (s, next_candidate p) hx q =
      error-Explained l plan s p p.last_error p.tripped refl refl hx (λ silent. (q silent).1)

  -- The answer to a request with a plan is explained by the plan: a response is one that a running
  -- candidate gave to the request as `attempt` prepares it, and the request's token is booked on
  -- that candidate and on the plan's combo; an error is such a candidate's own, or says that all
  -- are in cooldown when a breaker refused one of them, or that none can serve when none runs.
  pub complete-Explained :
      (to_lowercase : Text → Text) (self : RoutingBackend) (request : ChatCompletionRequest)
      (s : State World) (plan : Plan)
      → resolve to_lowercase self request.model ≡ ok plan
      → Explained from_str outside
          (locals_of from_str outside self request plan)
          plan.steps
          (complete from_str outside to_lowercase self request s)
  unfolding complete
  complete-Explained to_lowercase self request s plan h = rw h (
      outcome-Explained (locals_of from_str outside self request plan) plan.steps
        (try_steps from_str outside (locals_of from_str outside self request plan) plan.steps
          (no_progress from_str outside) s)
        (try_steps-IsTurn from_str outside (locals_of from_str outside self request plan) plan.steps
          plan.steps (no_progress from_str outside) s (λ step m. m)
          (record { error = λ e q. absurd (cc q); refused = λ q. absurd (cc q) }))
        (try_steps-Silent from_str outside (locals_of from_str outside self request plan) plan.steps
          (no_progress from_str outside) s))
