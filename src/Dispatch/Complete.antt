-- ===== src/Dispatch/Complete.antt =====
-- A request that is not streamed: `attribute` and `complete` in
-- crates/heterion-router-gateway/src/routing.rs, lines 222-236 and 361-458. What a request meets
-- outside (the clock, the backends, the database) is the parameter `Outside`; each of its operations
-- may change the shared breakers and attributions too, as other requests do meanwhile.
use heterion_router.Prelude.{
  ℕ, zero, suc, Bool, true, false, ltb, Option, none, some, List, [], ◌∷◌, ◌++◌, Text, codes,
  if◌then◌else◌,
}
use heterion_router.Breaker.Set
use heterion_router.Breaker.Set.{BreakerSet}
use heterion_router.Combos.{ComboConfig, member}
use heterion_router.Json.{Value, unwrap_or}
use heterion_router.Upstream.{
  GatewayError, upstream, unknown_model, is_backend_outage, is_transient,
}
use heterion_router.Dispatch.Request.{ChatCompletionRequest, attempt, request_token}
use heterion_router.Dispatch.Ring.{Attribution, remember}
use heterion_router.Dispatch.Resolve.{Plan, Result, ok, err, RoutingBackend, resolve}

-- `all_candidates_tripped`.
abbrev pub all_candidates_tripped : Text → GatewayError
all_candidates_tripped model = upstream (
    model
    ++ codes
        ": every candidate backend is in breaker cooldown after recent failures; retry shortly")

-- `no_candidate`.
abbrev pub no_candidate : Text → GatewayError
no_candidate model =
    unknown_model
      (model ++ codes " (no backend can serve it; check the combo entries or provider credentials)")

-- The shared state, with the world beyond it.
pub record State (World : Type 0) : Type 0 where
  pub breakers : BreakerSet
  pub attributions : List (Text × Attribution)
  pub world : World

pub record Outside (World Response : Type 0) : Type 0 where
  -- `Instant::now`.
  pub now : State World → State World × ℕ
  -- The named backend's `complete`.
  pub call : Text → ChatCompletionRequest → State World → State World × Result Response
  -- The `connection_id` of the named backend's `attribution`.
  pub connection_id : Text → Text → State World → State World × Option Text
  -- `dispatch_head_connection_id`.
  pub dispatch_head : Text → State World → State World × Option Text
  -- `tokio::time::sleep`.
  pub sleep : ℕ → State World → State World

-- The locals of `complete` that a candidate leaves behind.
pub record Progress : Type 0 where
  pub last_error : Option GatewayError
  pub tripped : Bool

-- What the loop over one candidate ends in: a response, or the next candidate's turn.
pub data Turn (Response : Type 0) : Type 0 where
  served : Response → Turn Response
  next_candidate : Progress → Turn Response

-- The locals of `complete` that stay.
pub record Locals : Type 0 where
  pub request : ChatCompletionRequest
  pub token : Option Text
  pub config : ComboConfig
  pub combo_name : Option Text
  pub backends : List Text

module _ {World Response : Type 0} (from_str : Text → Option Value)
    (outside : Outside World Response) where
  abbrev pub or_head : Text → State World → Option Text → State World × Option Text
  or_head provider s none = outside.dispatch_head provider s
  or_head provider s (some id) = (s, some id)

  abbrev pub remembered : Text → Text → Option Text → State World × Option Text → State World
  remembered token provider combo_name (s, connection_id) = record s {
    attributions =
        remember token
          (record {
            provider = some provider;
            connection_id = connection_id;
            combo_name = combo_name;
          })
          s.attributions;
  }

  -- `attribute`.
  unfoldable pub attribute : Option Text → Text → Option Text → State World → State World
  attribute none provider combo_name s = s
  attribute (some token) provider combo_name s =
      let (s1, own) = outside.connection_id provider token s in
      remembered token provider combo_name (or_head provider s1 own)

  -- The booking of an error with the backend's breaker.
  abbrev pub note_failure : Text → GatewayError → State World → State World
  note_failure name error s =
      if is_backend_outage from_str error
      then (let (s1, now) = outside.now s in
          record s1 { breakers = Set.record_failure s1.breakers name now })
      else s

  abbrev pub note_success : Text → State World → State World
  note_success name s = record s { breakers = Set.record_success s.breakers name }

  abbrev pub pause : ComboConfig → State World → State World
  pause config s = if ltb 0 config.retry_delay_ms then outside.sleep config.retry_delay_ms s else s

  -- The end of a round that failed: `again` is the next round, where a retry is left.
  abbrev pub retry :
      Locals
      → Option (Progress → State World → State World × Turn Response)
      → Progress
      → State World
      → State World × Turn Response
  retry l none p s = (s, next_candidate p)
  retry l (some again) p s =
      if l.config.failover_before_retry then (s, next_candidate p) else again p (pause l.config s)

  abbrev pub after_call :
      Locals
      → Text
      → Option (Progress → State World → State World × Turn Response)
      → Progress
      → State World × Result Response
      → State World × Turn Response
  after_call l name again p (s, ok response) =
      (attribute l.token name l.combo_name (note_success name s), served response)
  after_call l name again p (s, err error) =
      let s1 = attribute l.token name l.combo_name (note_failure name error s) in
      let p1 = record p { last_error = some error } in
      if is_transient from_str error then retry l again p1 s1 else (s1, next_candidate p1)

  -- The breaker's answer for a backend.
  abbrev pub admit : Text → State World → State World × Bool
  admit name s =
      let (s1, now) = outside.now s in
      let (breakers, admitted) = Set.allow s1.breakers name now in
      (record s1 { breakers = breakers }, admitted)

  abbrev pub round_admitted :
      Locals
      → Text
      → Text
      → Option (Progress → State World → State World × Turn Response)
      → Progress
      → State World × Bool
      → State World × Turn Response
  round_admitted l name target again p (s, false) =
      (s, next_candidate (record p { tripped = true }))
  round_admitted l name target again p (s, true) =
      if member name l.backends
      then after_call l name again p (outside.call name (attempt l.request target) s)
      else (s, next_candidate p)

  -- One round of the loop over a candidate.
  unfoldable pub round :
      Locals
      → Text
      → Text
      → Option (Progress → State World → State World × Turn Response)
      → Progress
      → State World
      → State World × Turn Response
  round l name target again p s = round_admitted l name target again p (admit name s)

  -- The loop over a candidate, by the number of retries that are left.
  unfoldable pub try_candidate :
      ℕ → Locals → Text → Text → Progress → State World → State World × Turn Response
  try_candidate zero l name target p s = round l name target none p s
  try_candidate (suc left) l name target p s =
      round l name target (some (try_candidate left l name target)) p s

  abbrev pub onward :
      (Progress → State World → State World × Turn Response)
      → State World × Turn Response
      → State World × Turn Response
  onward rest (s, served response) = (s, served response)
  onward rest (s, next_candidate p) = rest p s

  -- The loop over the plan.
  unfoldable pub try_steps :
      Locals → List (Text × Text) → Progress → State World → State World × Turn Response
  try_steps l [] p s = (s, next_candidate p)
  try_steps l ((name, target) ∷ steps) p s =
      onward (try_steps l steps) (try_candidate l.config.max_retries l name target p s)

  abbrev pub error_of : Text → Progress → GatewayError
  error_of model p =
      unwrap_or p.last_error
        (if p.tripped then all_candidates_tripped model else no_candidate model)

  abbrev pub outcome : Text → State World × Turn Response → State World × Result Response
  outcome model (s, served response) = (s, ok response)
  outcome model (s, next_candidate p) = (s, err (error_of model p))

  abbrev pub locals_of : RoutingBackend → ChatCompletionRequest → Plan → Locals
  locals_of self request plan = record {
    request = request;
    token = request_token request;
    config = plan.config;
    combo_name = plan.combo_name;
    backends = self.backends;
  }

  abbrev pub no_progress : Progress
  no_progress = record { last_error = none; tripped = false }

  abbrev pub complete_with :
      RoutingBackend
      → ChatCompletionRequest
      → State World
      → Result Plan
      → State World × Result Response
  complete_with self request s (err error) = (s, err error)
  complete_with self request s (ok plan) =
      outcome request.model (try_steps (locals_of self request plan) plan.steps no_progress s)

  -- `complete`.
  unfoldable pub complete :
      (to_lowercase : Text → Text)
      → RoutingBackend
      → ChatCompletionRequest
      → State World
      → State World × Result Response
  complete to_lowercase self request s =
      complete_with self request s (resolve to_lowercase self request.model)
