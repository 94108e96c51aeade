-- ===== src/Pairing.antt =====
-- config.py and cli.py: the pairing of a profile, and the hosts that it lets in.
pub mod Hosts
use hermes_stagewhisper_plug.Prelude.{
  ℕ, String, Char, code, Bool, true, false, not, ◌&&◌, ◌||◌, List, [], ◌∷◌, ◌++◌, ◌==◌, any,
  keep_if, eqb, if◌then◌else◌,
}
use hermes_stagewhisper_plug.Dict
use hermes_stagewhisper_plug.Dict.{Dict}
use hermes_stagewhisper_plug.Prelude.{Option, none, some}
use hermes_stagewhisper_plug.Text.{◌<>◌, is_empty, one_of, starts_with, split_on}
use hermes_stagewhisper_plug.Text.Lines.{strip_char, join_lines}

abbrev pub persisted_env_vars : List String
persisted_env_vars =
    "STAGEWHISPER_RELAY_TOKEN" ∷ "STAGEWHISPER_LISTEN_PORT" ∷ "STAGEWHISPER_ALLOW_INGRESS_HOSTS"
    ∷ []

abbrev quoted_char : Char → String
quoted_char c =
    if eqb (code c) b'\\'
    then "\\\\"
    else if eqb (code c) b'\n'
    then "\\n"
    else if eqb (code c) b'\r'
    then "\\r"
    else if eqb (code c) b'"'
    then "\\\""
    else String.◌∷◌ c ""

-- `_quote_env_value`: no replacement makes a character that a later one replaces, but for the
-- backslashes, which are replaced first
unfoldable pub quote_env_value : String → String
quote_env_value String.[] = ""
quote_env_value (String.◌∷◌ c s) = quoted_char c <> quote_env_value s

-- `_line_has_key`
unfoldable pub line_has_key : List String → String → Bool
unfolding starts_with
line_has_key keys line =
    any (λ key. starts_with line (key <> "=") || starts_with line (key <> "=\"")) keys

-- the lines of the variables that are set, in the order of the names
unfoldable pub pairing_lines : Dict String → List String → List String
unfolding quote_env_value
pairing_lines overrides [] = []
pairing_lines overrides (key ∷ keys) =
    let rest = pairing_lines overrides keys in
    elim (Dict.get overrides key) [
      | none ↦ rest
      | some value ↦
          if is_empty value then rest else (key <> "=\"" <> quote_env_value value <> "\"") ∷ rest
    ]

-- the text that `save_pairing` writes, of the lines that were there
unfoldable pub save_pairing : Dict String → List String → String
unfolding line_has_key pairing_lines join_lines
save_pairing overrides current_lines = join_lines (
    keep_if (λ line. not (line_has_key persisted_env_vars line)) current_lines
    ++ pairing_lines overrides persisted_env_vars)

-- the value of STAGEWHISPER_ALLOW_INGRESS_HOSTS that `_cmd_pair_code` keeps
unfoldable pub with_ingress_host : String → String → String
unfolding split_on strip_char
with_ingress_host allowed_hosts ingress_host =
    if not (is_empty ingress_host) && not (one_of (split_on b',' allowed_hosts) ingress_host)
    then strip_char b',' (allowed_hosts <> "," <> ingress_host)
    else allowed_hosts
