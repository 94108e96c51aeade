-- ===== src/Models/Accepted.antt =====
-- What an event is known to be once `validate_incoming` of models.py has accepted it.
use Prim.Native.String.{count}
use hermes_stagewhisper_plug.Prelude.{
  ◌≤◌, ◌≡◌, refl, ◌∙◌, ap, sym, String, Bool, true, not, ◌⊎◌, inl, inr, leb, leb→le, arith,
}
use hermes_stagewhisper_plug.Json
use hermes_stagewhisper_plug.Json.{
  Json, Members, null, boolean, string, object, InSet, in_set, as_string, as_object, as_boolean,
}
use hermes_stagewhisper_plug.Text.{is_empty}
use hermes_stagewhisper_plug.Models.Event.{Reason, ValidatedEvent}
use hermes_stagewhisper_plug.Models.Validate.{
  Validation, accepted, rejected, type_error, max_text_length, is_task_id, allowed_reasons, Checked,
  is_session_id, reason_of, reason_text, check_payload, check_body, validate_incoming,
}
use hermes_stagewhisper_plug.Models.Checks.{
  rejected_is_not-accepted, type_error_is_not-accepted, needs_string-inv, needs_object-inv,
  needs-inv, found_reason, reason_name,
}
use hermes_stagewhisper_plug.Models.Fields.{
  CallbackChecked, ReasonChecked, SaysOf, callback_inv, reason_inv,
}

module _ (allowed : String → Bool) (body : Members) (e : ValidatedEvent) where
  payload_inv :
      (task_id session_id : String) (reason : Reason)
      → check_payload allowed body task_id session_id reason ≡ accepted e
      → (payload : Members) × (Json.get body "payload" ≡ object payload)
        × (Json.get payload "text" ≡ string e.text)
        × (count e.text ≤ max_text_length)
        × (e.task_id ≡ task_id)
        × (e.session_id ≡ session_id)
        × (e.reason ≡ reason)
        × SaysOf body payload e
        × ReasonChecked reason payload
        × CallbackChecked allowed body reason e
  unfolding check_payload
  payload_inv task_id session_id reason h =
      let (occurred_at, at, there, h₁) =
        needs_string-inv (Json.get body "occurred_at") (λ s. not (is_empty s)) "invalid_occurred_at"
          _ e h in
      let (payload, p, h₂) =
        needs_object-inv (Json.get body "payload") "payload_must_be_object" _ e h₁ in
      let (text, t, _, h₃) =
        needs_string-inv (Json.get payload "text") (λ s. true) "invalid_text" _ e h₂ in
      let (short, h₄) = needs-inv (leb (count text) max_text_length) "text_too_long" _ e h₃ in
      let c : Checked = record {
        task_id = task_id;
        session_id = session_id;
        reason = reason;
        occurred_at = occurred_at;
        text = text;
        payload = payload;
        raw = body;
      } in
      let (h₅, ok) = reason_inv allowed c e reason h₄ in
      let (called, known) = callback_inv allowed c e h₅ in
      let e_text = ap ValidatedEvent.text known in
      (
        payload,
        p,
        rw e_text t,
        rw e_text (leb→le _ _ short),
        ap ValidatedEvent.task_id known,
        ap ValidatedEvent.session_id known,
        ap ValidatedEvent.reason known,
        record {
          occurred_at = at ∙ ap string (sym (ap ValidatedEvent.occurred_at known));
          occurred =
              ap (λ s. is_empty s) (ap ValidatedEvent.occurred_at known) ∙ ground (arith, there);
          is_final = ap ValidatedEvent.is_final known;
          user_message_id = ap ValidatedEvent.user_message_id known;
          parent_message_id = ap ValidatedEvent.parent_message_id known;
          raw = ap ValidatedEvent.raw known;
        },
        ok,
        called,
      )

-- What the event says of the request body, and what was checked of it.
pub record IsAccepted (allowed : String → Bool) (body : Members) (e : ValidatedEvent) : Type 0 where
  pub task_id : Json.get body "task_id" ≡ string e.task_id
  pub id_checked : is_task_id e.task_id ≡ true
  pub session_id : Json.get body "session_id" ≡ string e.session_id
  pub session_fits : is_session_id e.session_id ≡ true
  pub reason : Json.get body "reason" ≡ string (reason_name e.reason)
  pub payload : Members
  pub payload_found : Json.get body "payload" ≡ object payload
  pub text : Json.get payload "text" ≡ string e.text
  pub text_fits : count e.text ≤ max_text_length
  pub reason_checked : ReasonChecked e.reason payload
  pub says : SaysOf body payload e
  pub callback_checked : CallbackChecked allowed body e.reason e

InSet-cases :
    (i : InSet)
    → (i ≡ InSet.found)
      ⊎ ((next : Validation) (e : ValidatedEvent)
          → (elim i [
            | InSet.type_error ↦ type_error
            | InSet.missing ↦ rejected "unknown_reason"
            | InSet.found ↦ next
          ])
            ≡ accepted e
          → ⊥)
InSet-cases InSet.found = inl refl
InSet-cases InSet.missing = inr (λ next e h. rejected_is_not-accepted "unknown_reason" e h)
InSet-cases InSet.type_error = inr (λ next e h. type_error_is_not-accepted e h)

body_inv :
    (allowed : String → Bool) (body : Members) (e : ValidatedEvent)
    → check_body allowed body ≡ accepted e
    → IsAccepted allowed body e
unfolding check_body
body_inv allowed body e h =
    let (task_id, t, id_checked, h₁) =
      needs_string-inv (Json.get body "task_id") is_task_id "invalid_task_id" _ e h in
    let (session_id, s, fits, h₂) =
      needs_string-inv (Json.get body "session_id") is_session_id "invalid_session_id" _ e h₁ in
    elim (InSet-cases (in_set allowed_reasons (Json.get body "reason"))) [
      | inr ended ↦ absurd (ended _ e h₂)
      | inl found ↦
          (let named = found_reason (Json.get body "reason") found in
            let (payload, p, text, short, e_task, e_session, e_reason, says, ok, called) =
              payload_inv allowed body e task_id session_id
                (reason_of (reason_text (Json.get body "reason"))) (rw found at h₂) in
            record {
              task_id = t ∙ ap string (sym e_task);
              id_checked = rw e_task id_checked;
              session_id = s ∙ ap string (sym e_session);
              session_fits = rw e_session fits;
              reason = named ∙ ap (λ r. string (reason_name r)) (sym e_reason);
              payload = payload;
              payload_found = p;
              text = text;
              text_fits = short;
              says = says;
              reason_checked = rw e_reason ok;
              callback_checked = rw e_reason called;
            })
    ]

-- An event that is accepted says, in every field, what a JSON object says: its task id is one that
-- `is_task_id` passes, its session id has 1 to 128 characters, its reason is one of the three, its
-- time is not empty and its text has at most 16000 characters. is_final and the two message ids are
-- those of the payload, where they are a Boolean and texts, and none elsewhere; a transcript chunk
-- has its is_final, and a chat message its user_message_id, which is not empty. The callback is
-- none, for a prelude or an object without one; or the event is no prelude, and its URL and token
-- are those of the object's callback, the URL allowed and the token of at least 16 characters.
pub validate_incoming-IsAccepted :
    (allowed : String → Bool) (json : Json) (e : ValidatedEvent)
    → validate_incoming allowed json ≡ accepted e
    → (body : Members) × (json ≡ object body) × IsAccepted allowed body e
unfolding validate_incoming
validate_incoming-IsAccepted allowed json e h =
    let (body, j, h₁) = needs_object-inv json "body_must_be_object" _ e h in
    (body, j, body_inv allowed body e h₁)
