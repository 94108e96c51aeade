-- ===== src/Listener/Library.antt =====
-- listener.py: the routes of health, ping and the library model.
use hermes_stagewhisper_plug.Prelude.{
  ◌≡◌, ◌≢◌, refl, ap, inl, inr, String, true, none, some, List, [], ◌∷◌, Option-cases, arith,
}
use hermes_stagewhisper_plug.Json.{boolean, string, object, dict}
use hermes_stagewhisper_plug.Listener.{
  Request, Response, guard, peer_is_loopback, host_header_ok, bearer_matches,
}
use hermes_stagewhisper_plug.Llm.Host.{Arguments, HostLlm, ping_field}
use hermes_stagewhisper_plug.Llm.Endpoint.{
  json, LlmBody, Around, Served, unasked, handle_chat_completions,
}
use hermes_stagewhisper_plug.Llm.Endpoint.Refused.{IsAsked, handle_chat_completions-asked}

-- `version` is the installed version of the plugin
unfoldable pub handle_health : String → Response
handle_health version = record {
  status = 200;
  body = dict (("ok", boolean true) ∷ ("version", string version) ∷ []);
}

unfoldable pub handle_ping : List String → String → String → HostLlm → Request → HostLlm × Response
unfolding guard ping_field
handle_ping hosts token version h r = elim (guard hosts token r) [
  | some denied ↦ (h, denied)
  | none ↦
      (let (pinged, field) = ping_field h in
        (
          pinged,
          record {
            status = 200;
            body =
                dict
                  (("ok", boolean true) ∷ ("version", string version) ∷ ("llm", object field) ∷ []);
          },
        ))
]

-- the body that the route reads comes with the request
unfoldable pub handle_library_model :
    List String → String → Around → HostLlm → Request → LlmBody → Served
unfolding guard handle_chat_completions
handle_library_model hosts token around h r body = elim (guard hosts token r) [
  | some denied ↦ unasked h (json denied.status denied.body)
  | none ↦ handle_chat_completions around h body
]

-- A request that passes the guard.
pub record IsAdmitted (hosts : List String) (token : String) (r : Request) : Type 0 where
  pub peer : peer_is_loopback r ≡ true
  pub host : host_header_ok hosts r ≡ true
  pub bearer : bearer_matches token r ≡ true

guard-IsAdmitted :
    (hosts : List String) (token : String) (r : Request)
    → guard hosts token r ≡ none
    → IsAdmitted hosts token r
unfolding guard
guard-IsAdmitted hosts token r h = record {
  peer = ground (arith, h);
  host = ground (arith, h);
  bearer = ground (arith, h);
}

denied_ping :
    (hosts : List String) (token version : String) (h : HostLlm) (r : Request) (denied : Response)
    → guard hosts token r ≡ some denied
    → handle_ping hosts token version h r ≡ (h, denied)
unfolding handle_ping
denied_ping hosts token version h r denied e = rw (e, handle_ping) refl

-- The host's model is asked only for a request from a loopback peer, with an allowed host name and
-- the relay's token, that comes while the model is offered, with a body within the limits. A ping
-- changes what is offered only if it passes the same guard.
pub handle_library_model-asked :
    (hosts : List String) (token version : String) (around : Around) (h : HostLlm) (r : Request)
    (body : LlmBody)
    → ((args : Arguments)
        → (handle_library_model hosts token around h r body).asked ≡ some args
        → IsAdmitted hosts token r × IsAsked around h body args)
      × ((handle_ping hosts token version h r).0 ≢ h → IsAdmitted hosts token r)
unfolding handle_library_model
handle_library_model-asked hosts token version around h r body =
    elim (Option-cases (guard hosts token r)) [
      | inl e ↦ (
        λ args asked. (
          guard-IsAdmitted hosts token r e,
          handle_chat_completions-asked around h body args (rw (e, handle_library_model) at asked),
        ),
        λ _. guard-IsAdmitted hosts token r e,
      )
      | inr (denied, e) ↦ (
        λ args asked. absurd (ground (arith, e, asked)),
        λ changed. absurd (
            changed (
              ap (λ (p : HostLlm × Response). p.0) (denied_ping hosts token version h r denied e))),
      )
    ]
