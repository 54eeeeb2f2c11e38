-- ===== src/Dispatch/Outcome.antt =====
-- Where the answer of `complete` comes from.
use heterion_router.Prelude.{
  ℕ, zero, suc, ◌≡◌, refl, sym, ◌∙◌, ap, Bool, true, false, Option, none, some, List, [], ◌∷◌, Text,
  if◌then◌else◌,
}
use heterion_router.Combos.{member}
use heterion_router.Json.{Value}
use heterion_router.Upstream.{GatewayError, is_transient}
use heterion_router.Dispatch.Request.{attempt}
use heterion_router.Dispatch.Ring.{Attribution, attribution, remember}
use heterion_router.Dispatch.Slots.{attribution-remember_self}
use heterion_router.Dispatch.Resolve.{Result, ok, err}
use heterion_router.Dispatch.Complete.{
  State, Outside, Progress, Turn, served, next_candidate, Locals, after_call, retry, round,
  round_admitted, admit, pause, attribute, or_head, note_failure, note_success, try_candidate,
  try_steps, onward,
}
use mathlib.Core.List.{Memᴰ}

module _ {World Response : Type 0} (from_str : Text → Option Value)
    (outside : Outside World Response) (l : Locals) (plan : List (Text × Text)) where
  -- A candidate of the plan that runs gave this answer to the request as `attempt` prepares it.
  pub record Answered (r : Result Response) : Type 0 where
    pub name : Text
    pub target : Text
    pub planned : Memᴰ (name, target) plan
    pub running : member name l.backends ≡ true
    pub before : State World
    pub answer : (outside.call name (attempt l.request target) before).1 ≡ r

  -- A breaker refused a candidate of the plan.
  pub record Refused : Type 0 where
    pub name : Text
    pub target : Text
    pub planned : Memᴰ (name, target) plan
    pub before : State World
    pub answer : (admit from_str outside name before).1 ≡ false

  -- The response is a candidate's, and the request is booked on that candidate.
  pub record Served (s : State World) (r : Response) : Type 0 where
    pub by : Answered (ok r)
    pub booked :
        (token : Text)
        → l.token ≡ some token
        → ((attribution s.attributions token).provider ≡ some by.name)
          × ((attribution s.attributions token).combo_name ≡ l.combo_name)

  pub record IsProgress (p : Progress) : Type 0 where
    pub error : (e : GatewayError) → p.last_error ≡ some e → Answered (err e)
    pub refused : p.tripped ≡ true → Refused

  abbrev pub IsTurn : State World × Turn Response → Type 0
  IsTurn (s, served r) = Served s r
  IsTurn (s, next_candidate p) = IsProgress p

  abbrev Again : Type 0
  Again = Option (Progress → State World → State World × Turn Response)

  -- The next round, where there is one, keeps to the plan.
  abbrev IsAgain : Again → Type 0
  IsAgain none = Unit {0}
  IsAgain (some again) = (p : Progress) (s : State World) → IsProgress p → IsTurn (again p s)

  choice-IsTurn :
      (b : Bool) (x y : State World × Turn Response)
      → (b ≡ true → IsTurn x)
      → IsTurn y
      → IsTurn (if b then x else y)
  choice-IsTurn true x y hx hy = hx refl
  choice-IsTurn false x y hx hy = hy

  key_of : {k token : Text} → some k ≡ some token → token ≡ k
  key_of h = cc h

  booked_lem :
      (t : Option Text) (name token : Text) (c : Option Text) (s : State World)
      → t ≡ some token
      → ((attribution (attribute from_str outside t name c s).attributions token).provider
          ≡ some name)
        × ((attribution (attribute from_str outside t name c s).attributions token).combo_name ≡ c)
  unfolding attribute
  booked_lem none name token c s h = absurd (cc h)
  booked_lem (some k) name token c s h =
      let (s1, id) =
        or_head from_str outside name (outside.connection_id name k s).0
          (outside.connection_id name k s).1 in
      let booked : Attribution = record {
        provider = some name;
        connection_id = id;
        combo_name = c;
      } in
      let e =
        ap (λ key. attribution (remember k booked s1.attributions) key) (key_of h)
        ∙ attribution-remember_self k booked s1.attributions in
      (ap (λ a. a.provider) e, ap (λ a. a.combo_name) e)

  retry-IsTurn :
      (again : Again) (p : Progress) (s : State World)
      → IsAgain again
      → IsProgress p
      → IsTurn (retry from_str outside l again p s)
  retry-IsTurn none p s ha hp = hp
  retry-IsTurn (some again) p s ha hp =
      choice-IsTurn l.config.failover_before_retry (s, next_candidate p)
        (again p (pause from_str outside l.config s)) (λ h. hp)
        (ha p (pause from_str outside l.config s) hp)

  answer_of : {e e1 : GatewayError} → Answered (err e) → e ≡ e1 → Answered (err e1)
  answer_of a h = rw (sym h) a

  after_call-IsTurn :
      (name target : Text) (again : Again) (p : Progress) (s : State World)
      (x : State World × Result Response)
      → Memᴰ (name, target) plan
      → member name l.backends ≡ true
      → outside.call name (attempt l.request target) s ≡ x
      → IsAgain again
      → IsProgress p
      → IsTurn (after_call from_str outside l name again p x)
  after_call-IsTurn name target again p s (s1, ok r) at running e ha hp = record {
    by = record {
      name = name;
      target = target;
      planned = at;
      running = running;
      before = s;
      answer = ap (λ y. y.1) e;
    };
    booked = λ token h.
        booked_lem l.token name token l.combo_name (note_success from_str outside name s1) h;
  }
  after_call-IsTurn name target again p s (s1, err error) at running e ha hp =
      let p1 : Progress = record p { last_error = some error } in
      let s2 =
        attribute from_str outside l.token name l.combo_name
          (note_failure from_str outside name error s1) in
      let by : Answered (err error) = record {
        name = name;
        target = target;
        planned = at;
        running = running;
        before = s;
        answer = ap (λ y. y.1) e;
      } in
      let hp1 : IsProgress p1 = record {
        error = λ e1 h. answer_of by (cc h);
        refused = hp.refused;
      } in
      choice-IsTurn (is_transient from_str error) (retry from_str outside l again p1 s2)
        (s2, next_candidate p1) (λ h. retry-IsTurn again p1 s2 ha hp1) hp1

  round_admitted-IsTurn :
      (name target : Text) (again : Again) (p : Progress) (s : State World) (x : State World × Bool)
      → Memᴰ (name, target) plan
      → admit from_str outside name s ≡ x
      → IsAgain again
      → IsProgress p
      → IsTurn (round_admitted from_str outside l name target again p x)
  round_admitted-IsTurn name target again p s (s1, false) at e ha hp = record {
    error = hp.error;
    refused = λ h. record {
      name = name;
      target = target;
      planned = at;
      before = s;
      answer = ap (λ y. y.1) e;
    };
  }
  round_admitted-IsTurn name target again p s (s1, true) at e ha hp =
      let reply = outside.call name (attempt l.request target) s1 in
      choice-IsTurn (member name l.backends) (after_call from_str outside l name again p reply)
        (s1, next_candidate p) (λ m. after_call-IsTurn name target again p s1 reply at m refl ha hp)
        hp

  round-IsTurn :
      (name target : Text) (again : Again) (p : Progress) (s : State World)
      → Memᴰ (name, target) plan
      → IsAgain again
      → IsProgress p
      → IsTurn (round from_str outside l name target again p s)
  unfolding round
  round-IsTurn name target again p s at ha hp =
      round_admitted-IsTurn name target again p s (admit from_str outside name s) at refl ha hp

  try_candidate-IsTurn :
      (left : ℕ) (name target : Text) (p : Progress) (s : State World)
      → Memᴰ (name, target) plan
      → IsProgress p
      → IsTurn (try_candidate from_str outside left l name target p s)
  unfolding try_candidate
  try_candidate-IsTurn zero name target p s at hp = round-IsTurn name target none p s at tt hp
  try_candidate-IsTurn (suc left) name target p s at hp =
      round-IsTurn name target (some (try_candidate from_str outside left l name target)) p s at
        (λ p1 s1 h. try_candidate-IsTurn left name target p1 s1 at h) hp

  onward-IsTurn :
      (rest : Progress → State World → State World × Turn Response)
      (x : State World × Turn Response)
      → ((p : Progress) (s : State World) → IsProgress p → IsTurn (rest p s))
      → IsTurn x
      → IsTurn (onward from_str outside rest x)
  onward-IsTurn rest (s, served r) h hx = hx
  onward-IsTurn rest (s, next_candidate p) h hx = h p s hx

  pub try_steps-IsTurn :
      (steps : List (Text × Text)) (p : Progress) (s : State World)
      → ((step : Text × Text) → Memᴰ step steps → Memᴰ step plan)
      → IsProgress p
      → IsTurn (try_steps from_str outside l steps p s)
  unfolding try_steps
  try_steps-IsTurn [] p s sub hp = hp
  try_steps-IsTurn ((name, target) ∷ steps) p s sub hp =
      onward-IsTurn (try_steps from_str outside l steps)
        (try_candidate from_str outside l.config.max_retries l name target p s)
        (λ p1 s1 h. try_steps-IsTurn steps p1 s1 (λ step at. sub step (Memᴰ.tail at)) h)
        (try_candidate-IsTurn l.config.max_retries name target p s
          (sub (name, target) (Memᴰ.head refl)) hp)
