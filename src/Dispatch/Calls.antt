-- ===== src/Dispatch/Calls.antt =====
-- How often `complete` calls a backend, and with which requests.
use heterion_router.Prelude.{
  ℕ, zero, suc, ◌+◌, ◌*◌, length, ◌≡◌, sym, ◌∙◌, Option, none, some, List, [], ◌∷◌, Text, arith,
  if◌then◌else◌,
}
use heterion_router.Combos.{ComboConfig}
use heterion_router.Json.{Value}
use heterion_router.Dispatch.Request.{ChatCompletionRequest}
use heterion_router.Dispatch.Resolve.{Plan, ok, RoutingBackend, resolve}
use heterion_router.Dispatch.Complete.{
  State, Outside, Progress, Turn, served, next_candidate, Locals, try_candidate, try_steps, onward,
  outcome, locals_of, no_progress, complete,
}
use heterion_router.Dispatch.Budget.{IsBudgeted, spare, unspent_all, again_cost, round-keeps}

plus_zero : (n : ℕ) → n ≡ n + 0
plus_zero n = omega arith

suc_mul : (c k : ℕ) → c + k * c ≡ suc k * c
suc_mul c k = omega arith

module _ {World Response : Type 0} (from_str : Text → Option Value)
    (outside : Outside World Response) where
  module _ (l : Locals) (P : ℕ → World → Type 0)
      (keeps : IsBudgeted from_str outside l.backends P) where
    -- The calls that one candidate may get, with so many retries left.
    abbrev calls_for : ℕ → ℕ
    calls_for left = if l.config.failover_before_retry then 1 else suc left

    cost_zero : (n : ℕ) → calls_for 0 + n ≡ suc (again_cost from_str outside l P keeps 0 + n)
    cost_zero n = ground arith

    cost_suc :
        (left n : ℕ)
        → calls_for (suc left) + n
          ≡ suc (again_cost from_str outside l P keeps (calls_for left) + n)
    cost_suc left n = ground arith

    try_candidate-keeps :
        (left n : ℕ) (name target : Text) (p : Progress) (s : State World)
        → P (calls_for left + n) s.world
        → P n (try_candidate from_str outside left l name target p s).0.world
    unfolding try_candidate
    try_candidate-keeps zero n name target p s h =
        round-keeps from_str outside l P keeps 0 n name target none p s tt (
          spare from_str outside l P keeps (calls_for 0 + n)
            (suc (again_cost from_str outside l P keeps 0 + n)) s.world (cost_zero n) h)
    try_candidate-keeps (suc left) n name target p s h =
        round-keeps from_str outside l P keeps (calls_for left) n name target
          (some (try_candidate from_str outside left l name target)) p s
          (λ p1 s1 h1. try_candidate-keeps left n name target p1 s1 h1)
          (spare from_str outside l P keeps (calls_for (suc left) + n)
            (suc (again_cost from_str outside l P keeps (calls_for left) + n)) s.world
            (cost_suc left n) h)

    onward-keeps :
        (m n : ℕ) (rest : Progress → State World → State World × Turn Response)
        (x : State World × Turn Response)
        → ((p : Progress) (s : State World) → P (m + n) s.world → P n (rest p s).0.world)
        → P (m + n) x.0.world
        → P n (onward from_str outside rest x).0.world
    onward-keeps m n rest (s, served r) hr h = unspent_all from_str outside l P keeps m n s.world h
    onward-keeps m n rest (s, next_candidate p) hr h = hr p s h

    -- The calls that a plan may cost.
    pub plan_calls : List (Text × Text) → ℕ
    plan_calls [] = 0
    plan_calls (step ∷ steps) = calls_for l.config.max_retries + plan_calls steps

    plan_calls-length :
        (steps : List (Text × Text))
        → plan_calls steps ≡ length steps * calls_for l.config.max_retries
    unfolding plan_calls
    plan_calls-length [] = omega arith
    plan_calls-length (step ∷ steps) =
        rw (plan_calls-length steps) (suc_mul (calls_for l.config.max_retries) (length steps))

    try_steps-keeps :
        (n : ℕ) (steps : List (Text × Text)) (p : Progress) (s : State World)
        → P (plan_calls steps + n) s.world
        → P n (try_steps from_str outside l steps p s).0.world
    unfolding try_steps plan_calls
    try_steps-keeps n [] p s h = unspent_all from_str outside l P keeps 0 n s.world h
    try_steps-keeps n ((name, target) ∷ steps) p s h =
        onward-keeps (plan_calls steps) n (try_steps from_str outside l steps)
          (try_candidate from_str outside l.config.max_retries l name target p s)
          (λ p1 s1 h1. try_steps-keeps n steps p1 s1 h1)
          (try_candidate-keeps l.config.max_retries (plan_calls steps + n) name target p s (
            spare from_str outside l P keeps (calls_for l.config.max_retries + plan_calls steps + n)
              (calls_for l.config.max_retries + (plan_calls steps + n)) s.world (omega arith) h))

    outcome-keeps :
        (n : ℕ) (model : Text) (x : State World × Turn Response)
        → P n x.0.world
        → P n (outcome from_str outside model x).0.world
    outcome-keeps n model (s, served r) h = h
    outcome-keeps n model (s, next_candidate p) h = h

  -- How many calls a plan of so many steps may cost.
  abbrev pub most_calls : ComboConfig → ℕ → ℕ
  most_calls config steps =
      steps * (if config.failover_before_retry then 1 else suc config.max_retries)

  -- Answering a request calls a backend at most once for each step of the plan and each retry that
  -- the combo grants, and only once for each step where failover comes before a retry. Every call
  -- is of a backend that runs, with a clean request: whatever survives so many calls of that kind,
  -- and all else that happens outside, survives `complete`.
  pub complete-most_calls :
      (to_lowercase : Text → Text) (self : RoutingBackend) (request : ChatCompletionRequest)
      (s : State World) (plan : Plan) (P : ℕ → World → Type 0)
      → resolve to_lowercase self request.model ≡ ok plan
      → IsBudgeted from_str outside self.backends P
      → P (most_calls plan.config (length plan.steps)) s.world
      → P 0 (complete from_str outside to_lowercase self request s).0.world
  unfolding complete
  complete-most_calls to_lowercase self request s plan P e keeps h =
      let l = locals_of from_str outside self request plan in
      rw e (
        outcome-keeps l P keeps 0 request.model
          (try_steps from_str outside l plan.steps (no_progress from_str outside) s)
          (try_steps-keeps l P keeps 0 plan.steps (no_progress from_str outside) s (
            spare from_str outside l P keeps (most_calls plan.config (length plan.steps))
              (plan_calls l P keeps plan.steps + 0) s.world
              (sym (plan_calls-length l P keeps plan.steps)
                ∙ plus_zero (plan_calls l P keeps plan.steps))
              h)))
