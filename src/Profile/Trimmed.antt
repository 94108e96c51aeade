-- ===== src/Profile/Trimmed.antt =====
-- profile_seed.py: `member_auth_payload` passes on the credentials of the wanted providers alone.
use hermes_stagewhisper_plug.Prelude.{
  ◌≡◌, ◌≢◌, String, Bool, false, not, ◌&&◌, ◌||◌, none, some, List, ◌==◌, any, if◌then◌else◌,
}
use hermes_stagewhisper_plug.Json
use hermes_stagewhisper_plug.Json.{Json, Members, null, string, object, as_string, as_object}
use hermes_stagewhisper_plug.Text.{is_empty}
use hermes_stagewhisper_plug.Settings.{Floats}
use hermes_stagewhisper_plug.Profile.{fallback_entries, model_provider}

-- A value that is a text which is not empty, and that text.
abbrev pub names_text : String → Json → Bool
names_text name value = elim (as_string value) [
  | none ↦ false
  | some s ↦ s == name && not (is_empty s)
]

-- An entry of the fallbacks names a provider: it is the name, or it has it as its `provider`.
abbrev pub names_provider : String → Json → Bool
names_provider name entry = elim (as_object entry) [
  | none ↦ names_text name entry
  | some ms ↦ names_text name (Json.get ms "provider")
]

-- A provider that a member's profile wants: the model's, or one of the fallbacks'.
abbrev pub wants : Json → List Json → String → Bool
wants provider entries name = names_text name provider || any (names_provider name) entries

-- What is passed on of the stored credentials.
pub record IsTrimmed (f : Floats) (auth inherited payload pool : Members) : Type 0 where
  pub provider : Json
  pub entries : List Json
  pub is_provider : model_provider f inherited ≡ some provider
  pub are_entries : fallback_entries f inherited ≡ some entries
  pub trimmed : Members
  pub has_pool : Json.get payload "credential_pool" ≡ object trimmed
  pub exact :
      (name : String)
      → Json.get trimmed name ≡ (if wants provider entries name then Json.get pool name else null)
  pub others : (key : String) → "credential_pool" ≢ key → Json.get payload key ≡ Json.get auth key
