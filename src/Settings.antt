-- ===== src/Settings.antt =====
-- adapter.py and register.py: the settings of an adapter, from its config and the environment.
pub mod Register
pub mod Valid
pub mod Attempts
use hermes_stagewhisper_plug.Prelude.{
  ℕ, zero, suc, String, Bool, true, false, not, ◌&&◌, ◌||◌, Option, none, some, List, [], ◌∷◌, ◌==◌,
  leb, eqb, if◌then◌else◌,
}
use hermes_stagewhisper_plug.Dict
use hermes_stagewhisper_plug.Dict.{Dict}
use hermes_stagewhisper_plug.Json
use hermes_stagewhisper_plug.Json.{
  Json, Members, Items, null, boolean, int, negative, float, string, array, object, nil, cons, end,
  member, dict, InSet, found, missing, type_error, in_set, show_nat,
}
use hermes_stagewhisper_plug.Text.{is_empty, strip}
use hermes_stagewhisper_plug.Text.Numbers.{ℤ, pos, negsuc, parse_int}

-- What Python makes of a float's literal: whether it is 0, and `int` of it (of a finite one).
pub record Floats : Type 0 where
  pub is_zero : String → Bool
  pub trunc : String → ℤ

-- bool(value)
unfoldable pub truthy : Floats → Json → Bool
truthy f null = false
truthy f (boolean b) = b
truthy f (int n) = not (eqb n 0)
truthy f (negative n) = true
truthy f (float s) = not (f.is_zero s)
truthy f (string s) = not (is_empty s)
truthy f (array nil) = false
truthy f (array (cons x xs)) = true
truthy f (object end) = false
truthy f (object (member k v ms)) = true

-- a or b
unfoldable pub either : Floats → Json → Json → Json
unfolding truthy
either f a b = if truthy f a then a else b

-- os.environ.get(name), and with a default
unfoldable pub environ_get : Dict String → String → Json
environ_get env name = elim (Dict.get env name) [ none ↦ null | some s ↦ string s ]

unfoldable pub environ_or : Dict String → String → String → Json
environ_or env name default = elim (Dict.get env name) [ none ↦ string default | some s ↦ string s ]

-- value.strip(); `none` is the `AttributeError`
unfoldable pub stripped : Json → Option String
unfolding strip
stripped (string s) = some (strip s)
stripped null = none
stripped (boolean b) = none
stripped (int n) = none
stripped (negative n) = none
stripped (float s) = none
stripped (array xs) = none
stripped (object ms) = none

-- int(value); `none` is the `TypeError` or the `ValueError`
unfoldable pub python_int : Floats → Json → Option ℤ
unfolding parse_int
python_int f (string s) = parse_int s
python_int f (int n) = some (pos n)
python_int f (negative n) = some (negsuc n)
python_int f (boolean b) = some (pos (if b then 1 else 0))
python_int f (float s) = some (f.trunc s)
python_int f null = none
python_int f (array xs) = none
python_int f (object ms) = none

abbrev pub default_host : String
default_host = "127.0.0.1"

abbrev pub default_port : ℕ
default_port = 8765

abbrev pub default_max_concurrent : ℕ
default_max_concurrent = 4

abbrev pub default_dedup_cache_size : ℕ
default_dedup_cache_size = 2048

abbrev pub int_or : Option ℤ → ℕ → ℤ
int_or none fallback = pos fallback
int_or (some i) fallback = i

-- value is None or value == ""
abbrev pub absent : Json → Bool
absent null = true
absent (string s) = is_empty s
absent (boolean b) = false
absent (int n) = false
absent (negative n) = false
absent (float s) = false
absent (array xs) = false
absent (object ms) = false

-- `_coerce_int`
unfoldable pub coerce_int : Floats → Json → ℕ → ℤ
unfolding python_int
coerce_int f value fallback =
    if absent value then pos fallback else int_or (python_int f value) fallback

-- The config's `extra`, and the environment.
module _ (f : Floats) (extra : Members) (env : Dict String) where
  unfoldable pub resolve_token : Option String
  unfolding stripped either environ_or
  resolve_token =
      stripped (either f (Json.get extra "token") (environ_or env "STAGEWHISPER_RELAY_TOKEN" ""))

  unfoldable pub resolve_host : Json
  unfolding either environ_get
  resolve_host =
      either f
        (either f (Json.get extra "listen_host") (environ_get env "STAGEWHISPER_LISTEN_HOST"))
        (string default_host)

  unfoldable pub resolve_port : ℤ
  unfolding coerce_int either environ_get
  resolve_port =
      coerce_int f
        (either f (Json.get extra "listen_port") (environ_get env "STAGEWHISPER_LISTEN_PORT"))
        default_port

  unfoldable pub resolve_max_concurrent : ℤ
  unfolding coerce_int either environ_get
  resolve_max_concurrent =
      coerce_int f
        (either f (Json.get extra "max_concurrent") (environ_get env "STAGEWHISPER_MAX_CONCURRENT"))
        default_max_concurrent

  unfoldable pub resolve_dedup_size : ℤ
  unfolding coerce_int either environ_get
  resolve_dedup_size =
      coerce_int f
        (either f (Json.get extra "dedup_cache_size")
          (environ_get env "STAGEWHISPER_DEDUP_CACHE_SIZE"))
        default_dedup_cache_size

-- What `__init__` stores of the settings.
pub record Settings : Type 0 where
  pub token : String
  pub host : Json
  pub port : ℕ
  pub max_concurrent : ℕ
  pub dedup_size : ℤ

-- How `__init__` ends: with an adapter, with a `ValueError`, or with another exception, of a value
-- of the wrong type.
pub data Built : Type 0 where
  built : Settings → Built
  value_error : String → Built
  raises : Built

abbrev pub loopback_hosts : List String
loopback_hosts = "127.0.0.1" ∷ "localhost" ∷ "::1" ∷ []

-- 1024 <= port <= 65535
unfoldable pub is_port : ℤ → Bool
is_port (pos n) = leb 1024 n && leb n 65535
is_port (negsuc n) = false

abbrev pub magnitude : ℤ → ℕ
magnitude (pos n) = n
magnitude (negsuc n) = 0

-- `asyncio.Semaphore`, which refuses a negative number, and the rest of `__init__`
abbrev pub with_semaphore : String → Json → ℤ → ℤ → ℤ → Built
with_semaphore token host port (pos m) dedup = built (record {
  token = token;
  host = host;
  port = magnitude port;
  max_concurrent = m;
  dedup_size = dedup;
})
with_semaphore token host port (negsuc m) dedup = value_error "Semaphore initial value must be >= 0"

abbrev pub with_host : String → Json → InSet → ℤ → ℤ → ℤ → Built
with_host token host type_error port max_concurrent dedup = raises
with_host token host missing port max_concurrent dedup = value_error "listen host must be loopback"
with_host token host found port max_concurrent dedup =
    if not (is_port port)
    then value_error "listen port out of range"
    else with_semaphore token host port max_concurrent dedup

-- `__init__`, as far as its settings go; the texts of errors are without the values they name
unfoldable pub construct : Floats → Members → Dict String → Built
unfolding resolve_token resolve_host resolve_port resolve_max_concurrent resolve_dedup_size in_set
    is_port
construct f extra env = elim (resolve_token f extra env) [
  | none ↦ raises
  | some token ↦
      if is_empty token
      then value_error "STAGEWHISPER_RELAY_TOKEN is required for the StageWhisper adapter"
      else with_host token (resolve_host f extra env)
          (in_set loopback_hosts (resolve_host f extra env)) (resolve_port f extra env)
          (resolve_max_concurrent f extra env) (resolve_dedup_size f extra env)
]
