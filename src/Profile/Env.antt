-- ===== src/Profile/Env.antt =====
-- profile_seed.py: the lines of an environment file, read and merged.
pub mod Plain
pub mod Kept
pub mod Merged
pub mod Secrets
use hermes_stagewhisper_plug.Prelude.{
  ℕ, zero, suc, String, Char, code, Bool, true, false, not, ◌&&◌, ◌||◌, Option, none, some, List,
  [], ◌∷◌, ◌++◌, ◌==◌, map, keep_if, if◌then◌else◌,
}
use hermes_stagewhisper_plug.Dict
use hermes_stagewhisper_plug.Dict.{Dict}
use hermes_stagewhisper_plug.Text.{◌<>◌, is_empty, one_of, starts_with, strip, before_char}
use hermes_stagewhisper_plug.Text.Lines.{splitlines, after_char, has_char, strip_char, join_lines}

-- the body of the loop of `parse_env_text`
unfoldable pub parse_env_line : Dict String → String → Dict String
unfolding strip starts_with has_char before_char after_char strip_char
parse_env_line values raw_line =
    let line = strip raw_line in
    if is_empty line || starts_with line "#" || not (has_char b'=' line)
    then values
    else Dict.put values (strip (before_char b'=' line))
        (strip_char b'\'' (strip_char b'"' (strip (after_char b'=' line))))

unfoldable pub parse_env_lines : Dict String → List String → Dict String
unfolding parse_env_line
parse_env_lines values [] = values
parse_env_lines values (line ∷ lines) = parse_env_lines (parse_env_line values line) lines

unfoldable pub parse_env_text : String → Dict String
unfolding splitlines parse_env_lines
parse_env_text text = parse_env_lines [] (splitlines text)

-- the test of a line that `merge_env_file` keeps
unfoldable pub is_kept : Dict String → String → Bool
unfolding strip before_char
is_kept additions raw_line =
    not (is_empty (strip raw_line)) && not (Dict.has additions (strip (before_char b'=' raw_line)))

abbrev pub env_line : String × String → String
env_line (key, value) = key <> "=\"" <> value <> "\""

unfoldable pub merge_env_lines : Dict String → List String → List String
unfolding is_kept
merge_env_lines additions lines = keep_if (is_kept additions) lines ++ map env_line additions

-- `merge_env_file`: the text written, of the text that was there, if any
unfoldable pub merge_env_text : Dict String → Option String → String
unfolding merge_env_lines splitlines join_lines
merge_env_text additions none = join_lines (merge_env_lines additions [])
merge_env_text additions (some content) =
    join_lines (merge_env_lines additions (splitlines content))

-- the secrets that `copy_provider_secrets` passes on, and the names that it finds none of
unfoldable pub wanted_secrets : Dict String → List String → Dict String
wanted_secrets source_env [] = []
wanted_secrets source_env (name ∷ names) =
    let rest = wanted_secrets source_env names in
    elim (Dict.get source_env name) [
      | none ↦ rest
      | some value ↦ if is_empty value then rest else (name, value) ∷ rest
    ]

unfoldable pub missing_secrets : Dict String → List String → List String
missing_secrets secrets names = keep_if (λ name. not (Dict.has secrets name)) names
