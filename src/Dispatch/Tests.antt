-- ===== src/Dispatch/Tests.antt =====
-- Two backends, the first of which is down: the request falls over to the second. The world counts
-- the calls.
use heterion_router.Prelude.{
  ℕ, ◌+◌, ◌≤◌, ◌≡◌, refl, true, false, Option, none, some, List, [], ◌∷◌, Text, codes, text_eq,
  arith, if◌then◌else◌, lookup, insert, strip_prefix,
}
use heterion_router.Json.{Value, Fields, bool, string, get_field, remove_field}
use heterion_router.Breaker.Set
use heterion_router.Combos.{default_config, split_once, member}
use heterion_router.Router.{route, route_rules}
use heterion_router.Upstream.{
  GatewayError, upstream, is_backend_outage, is_transient, upstream_status,
  upstream_status_or_recovered,
}
use heterion_router.Dispatch.Request.{
  ChatCompletionRequest, attempt, request_token, attribution_token, remove_all,
}
use heterion_router.Dispatch.Clean.{IsClean, attempt-IsClean}
use heterion_router.Dispatch.Ring.{Attribution, attribution, remember, attribution_slots}
use heterion_router.Dispatch.Slots.{IsRing, entries_of}
use heterion_router.Dispatch.Resolve.{Plan, Result, ok, err, RoutingBackend, resolve, prefix_plan}
use heterion_router.Dispatch.Running.{Resolved, resolve-Resolved}
use heterion_router.Dispatch.Complete.{
  State, Outside, complete, try_steps, try_candidate, round, attribute, locals_of,
}
use heterion_router.Dispatch.Explained.{Explained, complete-Explained}
use heterion_router.Dispatch.Budget.{IsBudgeted}
use heterion_router.Dispatch.Calls.{complete-most_calls}

abbrev from_str : Text → Option Value
from_str s = none

abbrev to_lowercase : Text → Text
to_lowercase s = s

abbrev backends : List Text
backends = codes "a" ∷ codes "b" ∷ []

abbrev self : RoutingBackend
self = record {
  backends = backends;
  router = record { rules = []; default_backends = backends };
  db = none;
  registry = none;
}

abbrev request : ChatCompletionRequest
request = record {
  model = codes "m";
  messages = [];
  stream = false;
  max_tokens = none;
  temperature = none;
  top_p = none;
  tools = none;
  tool_choice = none;
  response_format = none;
  stop = none;
  top_k = none;
  max_completion_tokens = none;
  reasoning_effort = none;
  stream_options = none;
  parallel_tool_calls = none;
  metadata = none;
  service_tier = none;
  seed = none;
  verbosity = none;
  extra =
      Fields.field (codes "store") (bool true)
        (Fields.field attribution_token (string (codes "t")) Fields.end);
  responses_input = none;
}

abbrev reply : Text → Result Text
reply name =
    if text_eq name (codes "a") then err (upstream (codes "upstream status 503")) else ok name

abbrev outside : Outside ℕ Text
outside = record {
  now = λ s. (s, s.world);
  call = λ name r s. (record s { world = s.world + 1 }, reply name);
  connection_id = λ name token s. (s, none);
  dispatch_head = λ name s. (s, some (codes "row"));
  sleep = λ ms s. s;
}

abbrev start : State ℕ
start = record { breakers = Set.new 3 30; attributions = []; world = 0 }

abbrev plan : Plan
plan = record {
  config = default_config;
  steps = (codes "a", codes "m") ∷ (codes "b", codes "m") ∷ [];
  combo_name = none;
}

test_resolve : resolve to_lowercase self (codes "m") ≡ ok plan
unfolding resolve split_once prefix_plan route route_rules
test_resolve = refl

test_answer : (complete from_str outside to_lowercase self request start).1 ≡ ok (codes "b")
unfolding complete resolve split_once try_steps prefix_plan route route_rules try_candidate round
    Set.allow heterion_router.Breaker.allow Set.breaker lookup Set.new heterion_router.Breaker.new
    member text_eq is_transient Set.put Set.record_failure Set.record_success
    heterion_router.Breaker.record_failure heterion_router.Breaker.record_success attribute attempt
    is_backend_outage remove_all request_token remember heterion_router.Dispatch.Ring.without
    get_field remove_field insert strip_prefix upstream_status upstream_status_or_recovered
    heterion_router.Upstream.digits_value heterion_router.Upstream.parse_u16
    heterion_router.Upstream.take_digits heterion_router.Upstream.status_from_error_payload
    heterion_router.Upstream.from_bracket
test_answer = refl

abbrev Spare : ℕ → ℕ → Type 0
Spare n w = n + w ≤ 2

counted : IsBudgeted from_str outside backends Spare
counted = record {
  spend = λ n name r s clean running h. omega (arith, h);
  unspent = λ n w h. omega (arith, h);
  clock = λ n s h. h;
  connection = λ n name token s h. h;
  dispatch_head = λ n name s h. h;
  asleep = λ n ms s h. h;
}

empty-IsRing : IsRing []
unfolding entries_of
empty-IsRing = record { bounded = omega arith; once = λ token. omega arith }

abbrev served_by_b : Attribution
served_by_b = record { provider = some (codes "b"); connection_id = none; combo_name = none }

attempt-IsClean_example : IsClean (attempt request (codes "mistral-small"))
attempt-IsClean_example = attempt-IsClean request (codes "mistral-small")

resolve-Resolved_example :
    Resolved to_lowercase self (codes "m") (resolve to_lowercase self (codes "m"))
resolve-Resolved_example = resolve-Resolved to_lowercase self (codes "m")

complete-Explained_example :
    Explained from_str outside
      (locals_of from_str outside self request plan)
      plan.steps
      (complete from_str outside to_lowercase self request start)
complete-Explained_example =
    complete-Explained from_str outside to_lowercase self request start plan test_resolve

complete-most_calls_example :
    Spare 0 (complete from_str outside to_lowercase self request start).0.world
complete-most_calls_example =
    complete-most_calls from_str outside to_lowercase self request start plan Spare test_resolve
      counted (omega arith)
