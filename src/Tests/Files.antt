-- ===== src/Tests/Files.antt =====
-- Tests of the settings, of the environment files and of the files in directories of others.
use hermes_stagewhisper_plug.Prelude.{
  ℕ, ◌+◌, ◌≤◌, ◌≡◌, ◌≢◌, refl, String, true, false, ◌&&◌, none, some, List, [], ◌∷◌, ◌==◌, All,
  length, if◌then◌else◌, arith,
}
use hermes_stagewhisper_plug.Dict
use hermes_stagewhisper_plug.Dict.{Dict}
use hermes_stagewhisper_plug.Json.{Json, Members, string, int, object, array, cons, nil, dict}
use hermes_stagewhisper_plug.Json
use hermes_stagewhisper_plug.Text.{one_of}
use hermes_stagewhisper_plug.Text.Numbers.{pos}
use hermes_stagewhisper_plug.Adapter
use hermes_stagewhisper_plug.Adapter.{World, deliver_reply, post_reply}
use hermes_stagewhisper_plug.Adapter.Turns.{
  accept_event, evict_finished_task_callbacks, evict_from, enqueue,
}
use hermes_stagewhisper_plug.Callbacks.{uses_callback, callback_is_usable}
use hermes_stagewhisper_plug.Adapter.Disconnect.{Closing, end_turns, disconnect}
use hermes_stagewhisper_plug.Adapter.Disconnect.Open.{is_open}
use hermes_stagewhisper_plug.Adapter.Disconnect.Posted.{open_count, disconnect-posted}
use hermes_stagewhisper_plug.Settings.{Floats, Settings, resolve_max_concurrent}
use hermes_stagewhisper_plug.Settings.Register.{
  accepts, is_connected, config_host, config_token, validate_config, Answer, taken, not_taken,
  raised,
}
use hermes_stagewhisper_plug.Settings.Valid.{IsUsable, validate_config-IsUsable}
use hermes_stagewhisper_plug.Profile.Env.{
  parse_env_lines, merge_env_lines, wanted_secrets, missing_secrets,
}
use hermes_stagewhisper_plug.Profile.Env.Merged.{first_in, merge_env_lines-get}
use hermes_stagewhisper_plug.Profile.Env.Secrets.{set_value, wanted_secrets-exact}
use hermes_stagewhisper_plug.SecureFs.{
  max_wipe_bytes, Pwrite, opened, FileInfo, endless, removed, unlink_owned_regular_file,
  write_fails, write_regular_file,
}
use hermes_stagewhisper_plug.SecureFs.Safe.{Covers, unlink_owned_regular_file-safe}
use hermes_stagewhisper_plug.SecureFs.Whole.{write_regular_file-whole}
use hermes_stagewhisper_plug.Models.Urls.{UrlHost, allowed_ingress_hosts}
use hermes_stagewhisper_plug.Text.{strip, lower}
use hermes_stagewhisper_plug.Text.Lines.{has_char}
use hermes_stagewhisper_plug.Pairing.{with_ingress_host, save_pairing}
use hermes_stagewhisper_plug.Pairing.Hosts.{with_ingress_host-allowed}
use hermes_stagewhisper_plug.Tests.Turns.{host, world}

abbrev floats : Floats
floats = record { is_zero = λ s. false; trunc = λ s. pos 0 }

abbrev extra : Members
extra = dict (("token", string "secret") ∷ ("listen_port", int 9000) ∷ [])

accepted_config : validate_config floats extra [] ≡ accepts
unfolding validate_config Json.get Dict.get
accepted_config = refl

four_at_once : resolve_max_concurrent floats extra [] ≡ pos 4
unfolding resolve_max_concurrent Json.get Dict.get
four_at_once = refl

validate_config-IsUsable_example :
    ((s : Settings) × IsUsable floats extra [] s
      × (config_token floats extra [] ≡ some s.token)
      × (s.host ≡ config_host floats extra [])
      × (s.max_concurrent ≡ 4))
    × (is_connected floats extra [] ≡ accepts)
validate_config-IsUsable_example =
    validate_config-IsUsable floats extra [] 4 accepted_config four_at_once

-- A context that does not know of emoji.
abbrev plain_context : List String → Answer
plain_context keys = if one_of keys "emoji" then not_taken else taken

abbrev pool : Members
pool = dict (("openai", array (cons (string "key") nil)) ∷ ("other", array nil) ∷ [])

abbrev auth : Members
auth = dict (("credential_pool", object pool) ∷ ("version", int 1) ∷ [])

abbrev inherited : Members
inherited = dict (("model", object (dict (("provider", string "openai") ∷ []))) ∷ [])

abbrev payload : Members
payload = dict (
    ("credential_pool", object (dict (("openai", array (cons (string "key") nil)) ∷ [])))
    ∷ ("version", int 1)
    ∷ [])

abbrev additions : Dict String
additions = ("OPENAI_KEY", "sk-1=2") ∷ ("B", "") ∷ []

merge_env_lines-get_example :
    Dict.get (parse_env_lines [] (merge_env_lines additions ("B=1" ∷ "C=3" ∷ []))) "B"
    ≡ first_in additions (parse_env_lines [] ("B=1" ∷ "C=3" ∷ [])) "B"
unfolding Dict.has Dict.get
merge_env_lines-get_example = merge_env_lines-get additions ("B=1" ∷ "C=3" ∷ []) "B" (
  record { named = refl; name = refl; plain = refl },
  refl,
  (record { named = refl; name = refl; plain = refl }, refl, tt),
)

wanted_secrets-exact_example :
    (Dict.get (wanted_secrets additions ("B" ∷ "OPENAI_KEY" ∷ [])) "B"
      ≡ (if one_of ("B" ∷ "OPENAI_KEY" ∷ []) "B" then set_value additions "B" else none))
    × (one_of
          (missing_secrets
            (wanted_secrets additions ("B" ∷ "OPENAI_KEY" ∷ []))
            ("B" ∷ "OPENAI_KEY" ∷ []))
          "B"
        ≡ one_of ("B" ∷ "OPENAI_KEY" ∷ []) "B"
          && elim (set_value additions "B") [ none ↦ true | some v ↦ false ])
wanted_secrets-exact_example = wanted_secrets-exact additions ("B" ∷ "OPENAI_KEY" ∷ []) "B"

-- One byte is written at a time.
abbrev slow_write : Pwrite
slow_write offset n = 1

abbrev info : FileInfo
info = record { regular = true; uid = 1000; size = 3 }

unlink_owned_regular_file-safe_example :
    (unlink_owned_regular_file slow_write false (opened info) 1000 ≢ endless)
    × ((ws : List (ℕ × ℕ))
        → unlink_owned_regular_file slow_write false (opened info) 1000 ≡ removed ws
        → (i : FileInfo) × (opened info ≡ opened i)
          × (i.regular ≡ true)
          × (i.uid ≡ 1000)
          × (i.size ≤ max_wipe_bytes → Covers 0 i.size ws))
unlink_owned_regular_file-safe_example =
    unlink_owned_regular_file-safe slow_write false (opened info) 1000
      (λ offset n more. (omega arith, omega (arith, more)))

abbrev two_files : Dict String
two_files = ("a", "1") ∷ ("b", "2") ∷ []

write_regular_file-whole_example :
    Dict.get (write_regular_file (write_fails "ha") false two_files "a.tmp" "a" "half").files "a"
    ≡ (if (write_regular_file (write_fails "ha") false two_files "a.tmp" "a" "half").raised
        then Dict.get two_files "a"
        else if "a" == "a"
        then some "half"
        else Dict.get two_files "a")
write_regular_file-whole_example =
    write_regular_file-whole (write_fails "ha") false two_files "a.tmp" "a" "half" "a" refl

abbrev at_once : Closing
at_once = record { waits = λ a. a; closes = λ a. a }

abbrev calm_world : World
calm_world = record world { ahead = λ k. record (world.ahead k) { meanwhile = λ a. a } }

disconnect-posted_example :
    (length (disconnect at_once host calm_world).posted
      ≤ length calm_world.posted
        + open_count calm_world.adapter (Dict.keys calm_world.adapter.inflight))
    × All
        (λ task_id.
          is_open
            (end_turns at_once host (Dict.keys calm_world.adapter.inflight) calm_world).adapter
            task_id
          ≡ false)
        (Dict.keys calm_world.adapter.inflight)
disconnect-posted_example = disconnect-posted at_once host calm_world (λ k a task_id h. h)

-- The turn that runs is open, and its end is the one payload posted.
disconnect-posted_once :
    (open_count calm_world.adapter (Dict.keys calm_world.adapter.inflight) ≡ 1)
    × (length (disconnect at_once host calm_world).posted ≡ 1)
unfolding disconnect accept_event Dict.put evict_finished_task_callbacks evict_from enqueue
    Adapter.init Dict.get deliver_reply uses_callback post_reply callback_is_usable
disconnect-posted_once = (refl, refl)

-- The line of a variable that is set is dropped, and those of the overrides come last.
save_pairing-quoted :
    save_pairing
      (("STAGEWHISPER_RELAY_TOKEN", "a\"b") ∷ [])
      ("STAGEWHISPER_LISTEN_PORT=1" ∷ "OTHER=x" ∷ [])
    ≡ "OTHER=x\nSTAGEWHISPER_RELAY_TOKEN=\"a\\\"b\"\n"
unfolding save_pairing Dict.get
save_pairing-quoted = refl

abbrev no_urls : UrlHost
no_urls = record { urlparse = λ s. none; allow_callback_urls = none; allow_ingress_hosts = none }

with_ingress_host-allowed_example :
    one_of
      (allowed_ingress_hosts
        (record no_urls { allow_ingress_hosts = some (with_ingress_host "a.net" "b.net") }))
      "b.net"
    ≡ true
unfolding has_char strip lower
with_ingress_host-allowed_example =
    with_ingress_host-allowed no_urls "a.net" "b.net" refl refl refl refl
