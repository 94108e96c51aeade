-- ===== src/Settings/Register.antt =====
-- register.py: the checks of a config, and the registration of the platform.
use hermes_stagewhisper_plug.Prelude.{
  ℕ, String, Bool, false, not, Option, none, some, List, [], ◌∷◌, ◌==◌, keep_if, if◌then◌else◌,
}
use hermes_stagewhisper_plug.Dict
use hermes_stagewhisper_plug.Dict.{Dict}
use hermes_stagewhisper_plug.Json
use hermes_stagewhisper_plug.Json.{
  Json, Members, int, string, InSet, found, missing, type_error, in_set,
}
use hermes_stagewhisper_plug.Text.{is_empty, one_of}
use hermes_stagewhisper_plug.Text.Numbers.{ℤ, pos, parse_int}
use hermes_stagewhisper_plug.Settings.{
  Floats, either, environ_get, environ_or, stripped, python_int, default_host, default_port,
  default_max_concurrent, default_dedup_cache_size, int_or, loopback_hosts, is_port,
}

-- a set variable that is not empty
unfoldable pub check_requirements : Dict String → Bool
check_requirements env = elim (Dict.get env "STAGEWHISPER_RELAY_TOKEN") [
  | none ↦ false
  | some s ↦ not (is_empty s)
]

-- What a test of a config says, if it does not raise.
pub data Verdict : Type 0 where
  accepts denies raises : Verdict

module _ (f : Floats) (extra : Members) (env : Dict String) where
  -- the token, in `validate_config` and `is_connected`
  unfoldable pub config_token : Option String
  unfolding stripped either environ_get
  config_token = stripped (
      either f (either f (Json.get extra "token") (environ_get env "STAGEWHISPER_RELAY_TOKEN"))
        (string ""))

  unfoldable pub is_connected : Verdict
  unfolding config_token
  is_connected = elim config_token [
    | none ↦ raises
    | some token ↦ if is_empty token then denies else accepts
  ]

  unfoldable pub config_port : Option ℤ
  unfolding python_int either environ_get
  config_port = python_int f (
      either f
        (either f (Json.get extra "listen_port") (environ_get env "STAGEWHISPER_LISTEN_PORT"))
        (int default_port))

  unfoldable pub config_host : Json
  unfolding either environ_or
  config_host =
      either f (Json.get extra "listen_host")
        (environ_or env "STAGEWHISPER_LISTEN_HOST" default_host)

abbrev pub host_verdict : InSet → Verdict
host_verdict found = accepts
host_verdict missing = denies
host_verdict type_error = raises

abbrev pub port_verdict : Option ℤ → Verdict → Verdict
port_verdict none next = denies
port_verdict (some port) next = if not (is_port port) then denies else next

unfoldable pub validate_config : Floats → Members → Dict String → Verdict
unfolding config_token config_port config_host in_set is_port
validate_config f extra env = elim (config_token f extra env) [
  | none ↦ raises
  | some token ↦
      if is_empty token
      then denies
      else port_verdict (config_port f extra env)
          (host_verdict (in_set loopback_hosts (config_host f extra env)))
]

-- What `_env_enablement` gives.
pub record Enablement : Type 0 where
  pub token : String
  pub listen_host : String
  pub listen_port : ℤ
  pub max_concurrent : ℤ
  pub dedup_cache_size : ℤ

abbrev env_int : Dict String → String → ℕ → ℤ
env_int env name fallback = elim (Dict.get env name) [
  | none ↦ pos fallback
  | some s ↦ int_or (parse_int s) fallback
]

abbrev env_text : Dict String → String → String → String
env_text env name fallback = elim (Dict.get env name) [ none ↦ fallback | some s ↦ s ]

unfoldable pub env_enablement : Dict String → Option Enablement
unfolding parse_int
env_enablement env = elim (Dict.get env "STAGEWHISPER_RELAY_TOKEN") [
  | none ↦ none
  | some token ↦
      if is_empty token
      then none
      else some (record {
        token = token;
        listen_host = env_text env "STAGEWHISPER_LISTEN_HOST" default_host;
        listen_port = env_int env "STAGEWHISPER_LISTEN_PORT" default_port;
        max_concurrent = env_int env "STAGEWHISPER_MAX_CONCURRENT" default_max_concurrent;
        dedup_cache_size = env_int env "STAGEWHISPER_DEDUP_CACHE_SIZE" default_dedup_cache_size;
      })
]

-- the names of the arguments of `register_platform`
abbrev pub all_keys : List String
all_keys =
    "name" ∷ "label" ∷ "adapter_factory" ∷ "check_fn" ∷ "validate_config" ∷ "is_connected"
    ∷ "required_env" ∷ "install_hint" ∷ "env_enablement_fn" ∷ "allowed_users_env" ∷ "allow_all_env"
    ∷ "platform_hint" ∷ "max_message_length" ∷ "pii_safe" ∷ "allow_update_command" ∷ "emoji" ∷ []

abbrev pub optional_keys : List String
optional_keys =
    "emoji" ∷ "allow_update_command" ∷ "pii_safe" ∷ "allow_all_env" ∷ "allowed_users_env"
    ∷ "env_enablement_fn" ∷ "install_hint" ∷ "is_connected" ∷ []

-- the attempts after the first: each optional key that is there is dropped in turn
unfoldable pub fewer_keys : List String → List String → List (List String)
fewer_keys current [] = []
fewer_keys current (key ∷ keys) =
    let less = keep_if (λ k. not (k == key)) current in
    let dropped = fewer_keys less keys in
    let kept = fewer_keys current keys in if one_of current key then less ∷ dropped else kept

abbrev pub attempts : List (List String)
attempts = all_keys ∷ fewer_keys all_keys optional_keys

-- How `ctx.register_platform` ends, of the names it is given (a `TypeError`
-- is `not_taken`), and how `register` does.
pub data Answer : Type 0 where
  taken not_taken raised : Answer

pub data Registered : Type 0 where
  registered_with : List String → Registered
  no_platform unsupported failed : Registered

-- for attempt in attempts: …
unfoldable pub try_each : (List String → Answer) → List (List String) → Registered
try_each ctx [] = unsupported
try_each ctx (attempt ∷ rest) =
    let later = try_each ctx rest in
    elim (ctx attempt) [ taken ↦ registered_with attempt | not_taken ↦ later | raised ↦ failed ]

-- `register`, once the environment file is loaded; `none` is a context without `register_platform`
unfoldable pub register : Option (List String → Answer) → Registered
unfolding try_each
register none = no_platform
register (some ctx) = try_each ctx attempts
