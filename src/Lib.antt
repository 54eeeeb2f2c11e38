-- ===== src/Lib.antt =====
-- heterion-router: an OpenAI-compatible gateway that dispatches a chat request to one of several
-- providers.
--
-- How the parts interact: a request names a model; `Dispatch.Resolve.resolve`
-- (crates/heterion-router-gateway/src/routing.rs) turns it into a plan of (backend, model) steps, from the
-- provider registry (crates/heterion-router-providers/src/registry.rs), a stored combo
-- (crates/heterion-router-gateway/src/combos.rs) or the prefix rules
-- (crates/heterion-router-routing/src/router.rs); `Dispatch.Complete.complete` tries the steps in turn,
-- asks each backend's circuit breaker (crates/heterion-router-routing/src/breaker.rs) first, classifies
-- errors by the status that their text carries (crates/heterion-router-gateway/src/lib.rs), and books
-- who served the request. What a provider streams is cut into events by the SSE decoder
-- (crates/heterion-router-http/src/sse.rs), translated by the stream adapter of its format
-- (crates/heterion-router-translate/src) and passed to the client by the pump
-- (crates/heterion-router-gateway/src/responses.rs).
--
-- Files:
--   Prelude   shared names, Boolean tests, lists, text, dictionaries, white space
--   Json      JSON values and the accessors of serde_json that the program uses
--   Breaker   CircuitBreaker and BreakerSet: state, allow, record_success, record_failure
--   Sse       SseDecoder: push_bytes, its line loop and frame parser
--   Router    RouteRule, Router: new, route
--   Registry  WireFormat, ProviderEntry, ProviderRegistry: from_entries, get, canonical_id
--   Combos    ComboDef, ComboConfig: parse_combo, parse_combo_rich, plan_steps, dispatch_backend
--   Upstream  GatewayError, upstream_status, status_from_error_payload, with_recovered_status,
--             is_backend_outage, is_transient
--   Dispatch  ChatCompletionRequest, attempt, attribute, attribution, resolve, complete, and the
--             families of crates/heterion-router-gateway/src/reasoning.rs
--   Auth      AuthKey, allows_model, matches_pattern, bearer_token, from_request_parts
--             (crates/heterion-router-gateway/src/auth.rs)
--   Repetition  the guard that cuts looping answers: analyze, trim, StreamGuard, guard_stream,
--             apply_to_response (crates/heterion-router-gateway/src/repetition_guard.rs)
--   Translate  the stream adapters, each a state and its convert_event: Claude, Gemini and Responses
--             (crates/heterion-router-translate/src/claude.rs, gemini.rs and responses.rs), and the
--             chunks that they share (chunk.rs)
--   Pump      pump_sse_stream: from the bytes of an upstream through the decoder and an adapter to the
--             chunks of a client (crates/heterion-router-gateway/src/responses.rs), with
--             normalize_tool_call_deltas and openai_chunk_to_stream_chunk (backend.rs)
--   Budgets   the budgets of an API key: Period and period_start, the request window of
--             rpm_retry_after, evaluate, warn_once, enforce, upsert and remove
--             (crates/heterion-router-gateway/src/budgets.rs and
--             crates/heterion-router-db/src/budget_repos.rs)
--
-- Conventions: a `String` is a list of character codes, a byte sequence a list of numbers below 256; a
-- machine integer is a natural number, its wrap-around written out where the code can reach it. An
-- `Instant` is the number of a fixed unit since an origin, a `Duration` the same unit. A `HashMap` is an
-- association list. A `Mutex` and what it guards are a component of the state that is passed on: each
-- section under the lock is one step.
-- What lies outside (the clock, the backends' `complete`, the database, sleeping) is the parameter
-- `Outside` of Dispatch.Complete: its operations may change the shared state, as concurrent requests do.
-- `serde_json::from_str` and `str::to_lowercase` are parameters too, and so are the `f64` of a budget
-- (`Floats`) and its table (`Store`, `Writes`); what its statements write and leave alone is stated as
-- hypotheses, `Stamps` of Budgets.Warnings and `Laws` of Budgets.Upsert. The clock of a budget is not
-- before 5 January 1970, so that a date is computed on natural numbers.
-- Loops are structural recursion on the list they read; the retry loop is recursion on the retries
-- that are left, `max_retries` at first, so that no fuel is needed there; the line loop of the decoder
-- takes the length of its buffer as fuel, and each round shortens the buffer. A poll of a guarded
-- stream takes two rounds, and a third never runs.
--
-- Not modelled: the HTTP handlers, the provider executors and their network calls, the translation of
-- requests to the formats of the providers, streaming dispatch, the guardrails, the response cache, the
-- prices, the database and its SQL, the endpoints of the administration other than the budgets', the
-- desktop application and the scripts. The detail of a usage (`CachedUsage::from_payload`) is a
-- parameter of the pump.
pub mod Prelude
pub mod Breaker
pub mod Sse
pub mod Json
pub mod Router
pub mod Registry
pub mod Combos
pub mod Translate
pub mod Upstream
pub mod Dispatch
pub mod Repetition
pub mod Auth
pub mod Budgets
pub mod Pump
