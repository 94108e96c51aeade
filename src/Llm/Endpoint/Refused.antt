-- ===== src/Llm/Endpoint/Refused.antt =====
-- llm_endpoint.py: when the host's model is asked, and when it is asked no more.
use hermes_stagewhisper_plug.Prelude.{
  ℕ, ◌≤◌, ◌≡◌, ◌≢◌, refl, ◌∙◌, ap, sym, ◌⊎◌, inl, inr, Bool, true, false, not, ◌||◌, Option, none,
  some, List, [], ◌∷◌, ltb, All, Option-cases, not-ltb→le, if◌then◌else◌,
}
use hermes_stagewhisper_plug.Json.{Json}
use hermes_stagewhisper_plug.Llm.Request.{llm_max_body_bytes, ChatRequest}
use hermes_stagewhisper_plug.Llm.Request.Parse.{Parsed, chat, rejected, raised, parse_chat_request}
use hermes_stagewhisper_plug.Llm.Host.{
  Arguments, HostModel, fails, HostLlm, available, arguments_of, ping_field, Completed, completes,
  raises, read_response, complete,
}
use hermes_stagewhisper_plug.Llm.Endpoint.{
  not_offered, refuses, is_refusal, error_response, LlmBody, Client, stays, gone_at_end, gone_early,
  Around, Served, settled_of, later, settle, stream, plain, unasked, serve_parsed, serve_read,
  length_of, handle_chat_completions, serve_all,
}

-- A request for which the host's model is asked.
pub record IsAsked (around : Around) (h : HostLlm) (body : LlmBody) (args : Arguments)
    : Type 0 where
  pub offered : available h ≡ true
  pub size : ℕ
  pub value : Option Json
  pub is_read : body.read ≡ some (size, value)
  pub fits : size ≤ llm_max_body_bytes
  pub request : ChatRequest
  pub is_chat : parse_chat_request around.is_zero value ≡ chat request
  pub is_args : args ≡ arguments_of request
  pub is_served : handle_chat_completions around h body ≡ serve_parsed around h (chat request)

if_asked :
    (b : Bool) (x y : Served) (asked : Option Arguments)
    → x.asked ≡ asked
    → y.asked ≡ asked
    → (if b then x else y).asked ≡ asked
if_asked true x y asked ex ey = ex
if_asked false x y asked ex ey = ey

-- A guard whose answer asks nothing was passed.
passed :
    (b : Bool) (x y : Served) (args : Arguments)
    → x.asked ≡ none
    → (if b then x else y).asked ≡ some args
    → (b ≡ false) × (y.asked ≡ some args) × ((if b then x else y) ≡ y)
passed true x y args none_asked h = cc
passed false x y args none_asked h = (refl, h, refl)

pub Client-cases :
    (c : Client)
    → ((n : ℕ) × (c ≡ stays n)) ⊎ ((n : ℕ) × (c ≡ gone_at_end n)) ⊎ ((n : ℕ) × (c ≡ gone_early n))
Client-cases (stays n) = inl (n, refl)
Client-cases (gone_at_end n) = inr (inl (n, refl))
Client-cases (gone_early n) = inr (inr (n, refl))

stream-asked :
    (around : Around) (h : HostLlm) (request : ChatRequest)
    → (stream around h request).asked ≡ some (arguments_of request)
unfolding stream
stream-asked around h request = elim (Client-cases around.client) [
  | inl (n, e) ↦ rw e refl
  | inr (inl (n, e)) ↦ rw e refl
  | inr (inr (n, e)) ↦ rw e refl
]

plain-asked :
    (around : Around) (h : HostLlm) (request : ChatRequest)
    → (plain around h request).asked ≡ some (arguments_of request)
unfolding plain
plain-asked around h request = refl

some-inj : (a b : Arguments) → some a ≡ some b → a ≡ b
some-inj a b e = cc

serve_parsed-asked :
    (around : Around) (h : HostLlm) (parsed : Parsed) (args : Arguments)
    → (serve_parsed around h parsed).asked ≡ some args
    → (request : ChatRequest) × (parsed ≡ chat request) × (args ≡ arguments_of request)
unfolding serve_parsed
serve_parsed-asked around h (chat request) args e = (
  request,
  refl,
  some-inj args (arguments_of request) (
      sym e
      ∙ if_asked request.stream _ _ _ (stream-asked around h request)
          (plain-asked around h request)),
)
serve_parsed-asked around h (rejected r) args e = cc
serve_parsed-asked around h raised args e = cc

read_asked :
    (around : Around) (h : HostLlm) (body : LlmBody) (args : Arguments)
    (read : Option (ℕ × Option Json))
    → available h ≡ true
    → body.read ≡ read
    → handle_chat_completions around h body ≡ serve_read around h read
    → (serve_read around h read).asked ≡ some args
    → IsAsked around h body args
unfolding serve_read
read_asked around h body args none offered is_read served e = cc
read_asked around h body args (some (size, value)) offered is_read served e =
    let (fits, e₁, s₁) = passed (ltb llm_max_body_bytes size) _ _ args refl e in
    let (request, is_chat, is_args) = serve_parsed-asked around h _ args e₁ in
    record {
      offered = offered;
      size = size;
      value = value;
      is_read = is_read;
      fits = not-ltb→le llm_max_body_bytes size fits;
      request = request;
      is_chat = is_chat;
      is_args = is_args;
      is_served = served ∙ s₁ ∙ ap (serve_parsed around h) is_chat;
    }

not-false : (b : Bool) → not b ≡ false → b ≡ true
not-false true h = refl
not-false false h = cc

-- The host's model is asked only for a request that comes while it is offered, with a body of at
-- most 196608 bytes that `parse_chat_request` makes a request of, and with what that request says.
pub handle_chat_completions-asked :
    (around : Around) (h : HostLlm) (body : LlmBody) (args : Arguments)
    → (handle_chat_completions around h body).asked ≡ some args
    → IsAsked around h body args
unfolding handle_chat_completions
handle_chat_completions-asked around h body args e =
    let (on, e₁, s₁) = passed (not (available h)) _ _ args refl e in
    let (_, e₂, s₂) =
      passed (ltb llm_max_body_bytes (length_of body.content_length)) _ _ args refl e₁ in
    read_asked around h body args body.read (not-false (available h) on) refl (s₁ ∙ s₂) e₂

-- Once the host's model has refused, each request is answered that it is not offered.
off-unasked :
    (around : Around) (h : HostLlm) (body : LlmBody)
    → h.refused_by_host ≡ true
    → handle_chat_completions around h body ≡ unasked h (error_response not_offered)
unfolding handle_chat_completions available
off-unasked around h body off = elim (Option-cases h.host) [
  | inl e ↦ rw e refl
  | inr (model, e) ↦ rw (e, off) refl
]

off-serve_all :
    (h : HostLlm) (requests : List (Around × LlmBody))
    → h.refused_by_host ≡ true
    → All (λ s. s ≡ unasked h (error_response not_offered)) (serve_all h requests)
unfolding serve_all
off-serve_all h [] off = tt
off-serve_all h ((around, body) ∷ rest) off =
    let first = off-unasked around h body off in
    (first, rw (ap (λ (s : Served). s.host_llm) first) (off-serve_all h rest off))

or-true : (b : Bool) → b || true ≡ true
or-true true = refl
or-true false = refl

-- A call that the host refuses.
settle-refused :
    (around : Around) (h : HostLlm) (request : ChatRequest) (model : HostModel) (status : ℕ)
    → h.host ≡ some model
    → model.call (arguments_of request) ≡ fails (some status)
    → refuses status ≡ true
    → (settle around h request).0.refused_by_host ≡ true
unfolding settle complete read_response is_refusal
settle-refused around h request model status is_host fail refused =
    rw (is_host, fail, refused) (or-true (around.meanwhile h.refused_by_host))

stream-settles :
    (around : Around) (h : HostLlm) (request : ChatRequest)
    → ((n : ℕ) → around.client ≢ gone_early n)
    → (stream around h request).host_llm ≡ (settle around h request).0
unfolding stream
stream-settles around h request waits = elim (Client-cases around.client) [
  | inl (n, e) ↦ rw e refl
  | inr (inl (n, e)) ↦ rw e refl
  | inr (inr (n, e)) ↦ absurd (waits n e)
]

if_host :
    (b : Bool) (x y : Served) (h : HostLlm)
    → x.host_llm ≡ h
    → y.host_llm ≡ h
    → (if b then x else y).host_llm ≡ h
if_host true x y h ex ey = ex
if_host false x y h ex ey = ey

chat-settles :
    (around : Around) (h : HostLlm) (request : ChatRequest)
    → ((n : ℕ) → around.client ≢ gone_early n)
    → (serve_parsed around h (chat request)).host_llm ≡ (settle around h request).0
unfolding serve_parsed
chat-settles around h request waits =
    if_host request.stream _ _ _ (stream-settles around h request waits) (unfold plain in refl)

settle-host :
    (around : Around) (h : HostLlm) (request : ChatRequest)
    → (settle around h request).0.host ≡ h.host
unfolding settle
settle-host around h request = kept (complete around.uuid around.now h request)
  where
    kept : (c : Completed) → (settled_of (later around h) c).0.host ≡ h.host
    kept (completes completion) = refl
    kept (raises status) = refl

ping-available :
    (h : HostLlm) (model : HostModel) → h.host ≡ some model → available (ping_field h).0 ≡ true
unfolding available ping_field
ping-available h model is_host = rw is_host refl

-- If the host's model is asked for a request whose client waits for the answer, and the call fails
-- with status 401, 403 or 404, then any requests after it are answered, each, that the model is not
-- offered, and the model is not asked for any of them. A ping offers the model again.
pub handle_chat_completions-refused :
    (around : Around) (h : HostLlm) (body : LlmBody) (args : Arguments) (model : HostModel)
    (status : ℕ)
    → (handle_chat_completions around h body).asked ≡ some args
    → ((n : ℕ) → around.client ≢ gone_early n)
    → h.host ≡ some model
    → model.call args ≡ fails (some status)
    → refuses status ≡ true
    → ((requests : List (Around × LlmBody))
        → All
            (λ s.
              s
              ≡ unasked
                  (handle_chat_completions around h body).host_llm
                  (error_response not_offered))
            (serve_all (handle_chat_completions around h body).host_llm requests))
      × (available (ping_field (handle_chat_completions around h body).host_llm).0 ≡ true)
handle_chat_completions-refused around h body args model status is_asked waits is_host fail
      refused =
    let a = handle_chat_completions-asked around h body args is_asked in
    let settles : (handle_chat_completions around h body).host_llm ≡ (settle around h a.request).0 =
      ap (λ (s : Served). s.host_llm) a.is_served ∙ chat-settles around h a.request waits in
    let off =
      settle-refused around h a.request model status is_host (ap model.call (sym a.is_args) ∙ fail)
        refused in
    rw settles (
      λ requests. off-serve_all (settle around h a.request).0 requests off,
      ping-available _ model (settle-host around h a.request ∙ is_host),
    )
