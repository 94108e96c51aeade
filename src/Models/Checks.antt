-- ===== src/Models/Checks.antt =====
-- What each check of `validate_incoming` of models.py leaves known when an event comes of it.
use hermes_stagewhisper_plug.Prelude.{
  ◌≡◌, refl, ap, String, Bool, true, false, none, some, ◌⊎◌, inl, inr, Bool-cases, eq_iff, arith,
  if◌then◌else◌,
}
use hermes_stagewhisper_plug.Json.{
  Json, Members, null, boolean, string, object, InSet, in_set, as_boolean,
}
use hermes_stagewhisper_plug.Text.{one_of}
use hermes_stagewhisper_plug.Models.Event.{
  Reason, transcript_chunk, chat_message, system_prelude, ValidatedEvent,
}
use hermes_stagewhisper_plug.Models.Validate.{
  Validation, accepted, rejected, type_error, allowed_reasons, needs_string, needs_object, needs,
  reason_of, reason_text,
}

pub rejected_is_not-accepted :
    (error : String) (e : ValidatedEvent) → rejected error ≡ accepted e → ⊥
rejected_is_not-accepted error e h = cc

pub type_error_is_not-accepted : (e : ValidatedEvent) → type_error ≡ accepted e → ⊥
type_error_is_not-accepted e h = cc

-- the value that a check hands on, when the validation ends with an event
abbrev pub HandsString : Json → (String → Bool) → (String → Validation) → ValidatedEvent → Type 0
HandsString v test next e = (s : String) × (v ≡ string s) × (test s ≡ true) × (next s ≡ accepted e)

pub needs_string-inv :
    (v : Json) (test : String → Bool) (error : String) (next : String → Validation)
    (e : ValidatedEvent)
    → needs_string v test error next ≡ accepted e
    → HandsString v test next e
needs_string-inv (string s) test error next e h = elim (Bool-cases (test s)) [
  | inl t ↦ (s, refl, t, (rw t at h))
  | inr t ↦ absurd (rejected_is_not-accepted error e (rw t at h))
]
needs_string-inv null test error next e h = absurd (rejected_is_not-accepted error e h)
needs_string-inv (boolean b) test error next e h = absurd (rejected_is_not-accepted error e h)
needs_string-inv (Json.int n) test error next e h = absurd (rejected_is_not-accepted error e h)
needs_string-inv (Json.negative n) test error next e h = absurd (rejected_is_not-accepted error e h)
needs_string-inv (Json.float x) test error next e h = absurd (rejected_is_not-accepted error e h)
needs_string-inv (Json.array xs) test error next e h = absurd (rejected_is_not-accepted error e h)
needs_string-inv (object ms) test error next e h = absurd (rejected_is_not-accepted error e h)

pub needs_object-inv :
    (v : Json) (error : String) (next : Members → Validation) (e : ValidatedEvent)
    → needs_object v error next ≡ accepted e
    → (ms : Members) × (v ≡ object ms) × (next ms ≡ accepted e)
needs_object-inv (object ms) error next e h = (ms, refl, h)
needs_object-inv null error next e h = absurd (rejected_is_not-accepted error e h)
needs_object-inv (boolean b) error next e h = absurd (rejected_is_not-accepted error e h)
needs_object-inv (Json.int n) error next e h = absurd (rejected_is_not-accepted error e h)
needs_object-inv (Json.negative n) error next e h = absurd (rejected_is_not-accepted error e h)
needs_object-inv (Json.float x) error next e h = absurd (rejected_is_not-accepted error e h)
needs_object-inv (Json.array xs) error next e h = absurd (rejected_is_not-accepted error e h)
needs_object-inv (string s) error next e h = absurd (rejected_is_not-accepted error e h)

pub needs-inv :
    (test : Bool) (error : String) (next : Validation) (e : ValidatedEvent)
    → needs test error next ≡ accepted e
    → (test ≡ true) × (next ≡ accepted e)
needs-inv true error next e h = (refl, h)
needs-inv false error next e h = absurd (rejected_is_not-accepted error e h)

pub accepted-inj : (d e : ValidatedEvent) → accepted d ≡ accepted e → d ≡ e
accepted-inj d e h = cc

pub final_inv :
    (v : Json) (next : Validation) (e : ValidatedEvent)
    → (elim (as_boolean v) [ none ↦ rejected "is_final_must_be_bool" | some b ↦ next ]) ≡ accepted e
    → (next ≡ accepted e) × ((b : Bool) × (v ≡ boolean b))
final_inv (boolean b) next e h = (h, (b, refl))
final_inv null next e h = absurd (rejected_is_not-accepted _ e h)
final_inv (Json.int n) next e h = absurd (rejected_is_not-accepted _ e h)
final_inv (Json.negative n) next e h = absurd (rejected_is_not-accepted _ e h)
final_inv (Json.float x) next e h = absurd (rejected_is_not-accepted _ e h)
final_inv (Json.array xs) next e h = absurd (rejected_is_not-accepted _ e h)
final_inv (string s) next e h = absurd (rejected_is_not-accepted _ e h)
final_inv (object ms) next e h = absurd (rejected_is_not-accepted _ e h)

-- `reason` as the request spells it
abbrev pub reason_name : Reason → String
reason_name transcript_chunk = "transcript_chunk"
reason_name chat_message = "chat_message"
reason_name system_prelude = "system_prelude"

pub one_of_reasons :
    (s : String)
    → one_of allowed_reasons s ≡ true
    → (s ≡ "transcript_chunk") ⊎ ((s ≡ "chat_message") ⊎ (s ≡ "system_prelude"))
one_of_reasons s h =
    ground
      (arith, h, eq_iff "transcript_chunk" s, eq_iff "chat_message" s, eq_iff "system_prelude" s)

pub named_reason : (s : String) → one_of allowed_reasons s ≡ true → s ≡ reason_name (reason_of s)
named_reason s h = elim (one_of_reasons s h) [
  | inl e ↦ rw e refl
  | inr (inl e) ↦ rw e refl
  | inr (inr e) ↦ rw e refl
]

pub found_true : (b : Bool) → (if b then InSet.found else InSet.missing) ≡ InSet.found → b ≡ true
found_true true h = refl
found_true false h = cc

pub found_reason :
    (v : Json)
    → in_set allowed_reasons v ≡ InSet.found
    → v ≡ string (reason_name (reason_of (reason_text v)))
unfolding in_set
found_reason (string s) h = ap string (named_reason s (found_true (one_of allowed_reasons s) h))
found_reason null h = cc
found_reason (boolean b) h = cc
found_reason (Json.int n) h = cc
found_reason (Json.negative n) h = cc
found_reason (Json.float x) h = cc
found_reason (Json.array xs) h = cc
found_reason (object ms) h = cc
