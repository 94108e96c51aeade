-- ===== src/Settings/Attempts.antt =====
-- register.py: which attempt registers the platform.
use hermes_stagewhisper_plug.Prelude.{◌≡◌, String, true, List, [], ◌∷◌, ◌++◌, All, all}
use hermes_stagewhisper_plug.Text.{one_of}
use hermes_stagewhisper_plug.Settings.Register.{Answer, taken, not_taken}

-- The arguments that no attempt leaves out.
abbrev pub required_keys : List String
required_keys =
    "name" ∷ "label" ∷ "adapter_factory" ∷ "check_fn" ∷ "validate_config" ∷ "required_env"
    ∷ "platform_hint" ∷ "max_message_length" ∷ []

HasRequired : List String → Type 0
HasRequired keys = all (one_of keys) required_keys ≡ true

-- The first of some attempts that is taken, with all before it not taken.
pub record FirstTaken (ctx : List String → Answer) (tries : List (List String)) (keys : List String)
    : Type 0 where
  pub front : List (List String)
  pub back : List (List String)
  pub splits : tries ≡ front ++ keys ∷ back
  pub before : All (λ attempt. ctx attempt ≡ not_taken) front
  pub at : ctx keys ≡ taken
