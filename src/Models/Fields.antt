-- ===== src/Models/Fields.antt =====
-- What `validate_incoming` of models.py has checked of an event's callback and of its reason's fields.
use Prim.Native.String.{count}
use hermes_stagewhisper_plug.Prelude.{
  ◌≤◌, ◌≡◌, refl, ap, sym, String, Bool, true, false, not, ◌||◌, none, some, ◌≢◌, ◌⊎◌, inl, inr,
  Bool-cases, leb, leb→le, arith,
}
use hermes_stagewhisper_plug.Json
use hermes_stagewhisper_plug.Json.{
  Json, Members, null, boolean, string, object, InSet, in_set, as_string, as_object, as_boolean,
}
use hermes_stagewhisper_plug.Text.{is_empty}
use hermes_stagewhisper_plug.Models.Event.{
  Reason, transcript_chunk, chat_message, system_prelude, ValidatedEvent,
}
use hermes_stagewhisper_plug.Models.Validate.{
  accepted, min_callback_token_length, Checked, event_of, is_prelude, is_null, check_block,
  check_callback, check_reason,
}
use hermes_stagewhisper_plug.Models.Checks.{
  needs_string-inv, needs_object-inv, needs-inv, accepted-inj, final_inv,
}

-- What an accepted event's callback can be, of a body: none, for a prelude or a body without one, or
-- the pair in the body's block, which was checked.
abbrev pub CallbackChecked : (String → Bool) → Members → Reason → ValidatedEvent → Type 0
CallbackChecked allowed body reason e =
    ((e.callback_url ≡ none)
      × (e.callback_token ≡ none)
      × ((reason ≡ system_prelude) ⊎ (Json.get body "callback" ≡ null)))
    ⊎ ((reason ≢ system_prelude)
        × ((block : Members) × (url : String) × (token : String) × (Json.get body "callback"
              ≡ object block)
            × (Json.get block "url" ≡ string url)
            × (Json.get block "token" ≡ string token)
            × (e.callback_url ≡ some url)
            × (e.callback_token ≡ some token)
            × (allowed url ≡ true)
            × (min_callback_token_length ≤ count token)))

not_prelude :
    (reason : Reason) (b : Bool) → (is_prelude reason || b) ≡ false → reason ≢ system_prelude
not_prelude reason b h p = cc

is_prelude-inv : (reason : Reason) → is_prelude reason ≡ true → reason ≡ system_prelude
is_prelude-inv transcript_chunk h = cc
is_prelude-inv chat_message h = cc
is_prelude-inv system_prelude h = refl

is_null-inv : (json : Json) → is_null json ≡ true → json ≡ null
is_null-inv null h = refl
is_null-inv (boolean b) h = cc
is_null-inv (Json.int n) h = cc
is_null-inv (Json.negative n) h = cc
is_null-inv (Json.float s) h = cc
is_null-inv (string s) h = cc
is_null-inv (Json.array xs) h = cc
is_null-inv (object ms) h = cc

no_callback :
    (reason : Reason) (json : Json)
    → (is_prelude reason || is_null json) ≡ true
    → (reason ≡ system_prelude) ⊎ (json ≡ null)
no_callback reason json h = elim (Bool-cases (is_prelude reason)) [
  | inl p ↦ inl (is_prelude-inv reason p)
  | inr p ↦ inr (is_null-inv json (ground (arith, p, h)))
]

-- The fields that an event takes over from a body and its payload as they are.
pub record SaysOf (body payload : Members) (e : ValidatedEvent) : Type 0 where
  pub occurred_at : Json.get body "occurred_at" ≡ string e.occurred_at
  pub occurred : is_empty e.occurred_at ≡ false
  pub is_final : e.is_final ≡ as_boolean (Json.get payload "is_final")
  pub user_message_id : e.user_message_id ≡ as_string (Json.get payload "user_message_id")
  pub parent_message_id : e.parent_message_id ≡ as_string (Json.get payload "parent_message_id")
  pub raw : e.raw ≡ object body

-- What the payload holds, by the event's reason.
abbrev pub ReasonChecked : Reason → Members → Type 0
ReasonChecked transcript_chunk payload = (b : Bool) × (Json.get payload "is_final" ≡ boolean b)
ReasonChecked chat_message payload =
    (id : String) × (Json.get payload "user_message_id" ≡ string id) × (is_empty id ≡ false)
ReasonChecked system_prelude payload = Unit

module _ (allowed : String → Bool) (c : Checked) (e : ValidatedEvent) where
  block-inv :
      (block : Json)
      → check_block allowed c block ≡ accepted e
      → (members : Members) × (url : String) × (token : String) × (block ≡ object members)
        × (Json.get members "url" ≡ string url)
        × (Json.get members "token" ≡ string token)
        × (e ≡ event_of c (some url) (some token))
        × (allowed url ≡ true)
        × (min_callback_token_length ≤ count token)
  unfolding check_block
  block-inv block h =
      let (ms, b, h₁) = needs_object-inv block "invalid_callback" _ e h in
      let (url, u, ok, h₂) =
        needs_string-inv (Json.get ms "url") allowed "invalid_callback_url" _ e h₁ in
      let (token, t, long, h₃) =
        needs_string-inv (Json.get ms "token") (λ t. leb min_callback_token_length (count t))
          "invalid_callback_token" _ e h₂ in
      (ms, url, token, b, u, t, sym (accepted-inj _ e h₃), ok, leb→le _ _ long)

  pub callback_inv :
      check_callback allowed c ≡ accepted e
      → CallbackChecked allowed c.raw c.reason e × (e ≡ event_of c e.callback_url e.callback_token)
  unfolding check_callback
  callback_inv h = elim (Bool-cases (is_prelude c.reason || is_null (Json.get c.raw "callback"))) [
    | inl t ↦
        (let known = sym (accepted-inj (event_of c none none) e (rw (check_callback, t) at h)) in
          (
            inl (
              ap ValidatedEvent.callback_url known,
              ap ValidatedEvent.callback_token known,
              no_callback c.reason (Json.get c.raw "callback") t,
            ),
            rw known refl,
          ))
    | inr t ↦
        (let (block, url, token, found, u, v, known, ok, long) =
            block-inv (Json.get c.raw "callback") (rw (check_callback, t) at h) in
          (
            inr (
              not_prelude c.reason _ t,
              (
                block,
                url,
                token,
                found,
                u,
                v,
                ap ValidatedEvent.callback_url known,
                ap ValidatedEvent.callback_token known,
                ok,
                long,
              ),
            ),
            rw known refl,
          ))
  ]

  pub reason_inv :
      (reason : Reason)
      → check_reason allowed c reason ≡ accepted e
      → (check_callback allowed c ≡ accepted e) × ReasonChecked reason c.payload
  unfolding check_reason
  reason_inv system_prelude h = (h, tt)
  reason_inv chat_message h =
      let (id, text, nonempty, h₁) =
        needs_string-inv (Json.get c.payload "user_message_id") (λ s. not (is_empty s))
          "user_message_id_required" _ e h in
      (h₁, (id, text, ground (arith, nonempty)))
  reason_inv transcript_chunk h =
      let (_, h₁) = needs-inv (Json.has c.payload "is_final") "is_final_required" _ e h in
      final_inv (Json.get c.payload "is_final") (check_callback allowed c) e h₁
