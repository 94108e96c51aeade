-- ===== src/Settings/Valid.antt =====
-- register.py and adapter.py: a config that `validate_config` accepts makes an adapter.
use hermes_stagewhisper_plug.Prelude.{
  ℕ, ◌≤◌, ◌≡◌, refl, ◌∙◌, ap, sym, inl, inr, String, true, false, Option, none, some, Bool-cases,
  Option-cases, arith,
}
use hermes_stagewhisper_plug.Dict
use hermes_stagewhisper_plug.Dict.{Dict}
use hermes_stagewhisper_plug.Json
use hermes_stagewhisper_plug.Json.{
  Json, Members, null, boolean, int, negative, float, string, array, object, InSet, found, missing,
  type_error, in_set,
}
use hermes_stagewhisper_plug.Text.{is_empty}
use hermes_stagewhisper_plug.Text.Numbers.{ℤ, pos, negsuc}
use hermes_stagewhisper_plug.Settings.{
  Floats, truthy, either, environ_get, environ_or, stripped, python_int, absent, coerce_int,
  default_host, default_port, magnitude, loopback_hosts, is_port, resolve_token, resolve_host,
  resolve_port, resolve_max_concurrent, resolve_dedup_size, Settings, built, construct,
}
use hermes_stagewhisper_plug.Settings.Register.{
  accepts, config_token, is_connected, config_port, config_host, host_verdict, port_verdict,
  validate_config,
}

-- An adapter's settings, of a config and an environment.
pub record IsUsable (f : Floats) (extra : Members) (env : Dict String) (s : Settings) : Type 0 where
  pub is_built : construct f extra env ≡ built s
  pub token : is_empty s.token ≡ false
  pub host : in_set loopback_hosts s.host ≡ found
  pub low : 1024 ≤ s.port
  pub high : s.port ≤ 65535
  pub port : config_port f extra env ≡ some (pos s.port)

is_port-inv : (port : ℤ) → is_port port ≡ true → (n : ℕ) × (port ≡ pos n) × (1024 ≤ n) × (n ≤ 65535)
unfolding is_port
is_port-inv (pos n) h = (n, refl, ground (arith, h), ground (arith, h))
is_port-inv (negsuc n) h = cc

port_verdict-inv :
    (p : Option ℤ) (i : InSet)
    → port_verdict p (host_verdict i) ≡ accepts
    → (port : ℤ) × (p ≡ some port) × (is_port port ≡ true) × (i ≡ found)
port_verdict-inv none i h = cc
port_verdict-inv (some port) i h = (port, refl, ground (arith, h), host i (ground (arith, h)))
  where
    host : (i : InSet) → host_verdict i ≡ accepts → i ≡ found
    host found h = refl
    host missing h = cc
    host type_error h = cc

module _ (f : Floats) where
  either-truthy : (a b : Json) → truthy f a ≡ true → either f a b ≡ a
  unfolding either
  either-truthy a b e = rw e refl

  either-falsy : (a b : Json) → truthy f a ≡ false → either f a b ≡ b
  unfolding either
  either-falsy a b e = rw e refl

  falsy_string : (s : String) → truthy f (string s) ≡ false → s ≡ ""
  unfolding truthy
  falsy_string String.[] h = refl
  falsy_string (String.◌∷◌ c s) h = cc

  -- A value that is true is not absent.
  truthy-present : (v : Json) → truthy f v ≡ true → absent v ≡ false
  unfolding truthy
  truthy-present null h = cc
  truthy-present (boolean b) h = refl
  truthy-present (int n) h = refl
  truthy-present (negative n) h = refl
  truthy-present (float s) h = refl
  truthy-present (string String.[]) h = cc
  truthy-present (string (String.◌∷◌ c s)) h = refl
  truthy-present (array xs) h = refl
  truthy-present (object ms) h = refl

  -- A looked up variable, and one with a default.
  abbrev looked : Option String → Json
  looked o = elim o [ none ↦ null | some s ↦ string s ]

  abbrev looked_or : String → Option String → Json
  looked_or default o = elim o [ none ↦ string default | some s ↦ string s ]

  -- An empty default is as good as none.
  lone_token : (o : Option String) → either f (looked o) (string "") ≡ looked_or "" o
  unfolding either truthy
  lone_token none = refl
  lone_token (some String.[]) = refl
  lone_token (some (String.◌∷◌ c s)) = refl

  token_same :
      (a : Json) (o : Option String)
      → either f (either f a (looked o)) (string "") ≡ either f a (looked_or "" o)
  token_same a o = elim (Bool-cases (truthy f a)) [
    | inl e ↦
        rw (either-truthy a (looked o) e, either-truthy a (looked_or "" o) e)
          (either-truthy a (string "") e)
    | inr e ↦ rw (either-falsy a (looked o) e, either-falsy a (looked_or "" o) e) (lone_token o)
  ]

  lone_port :
      (o : Option String) (port : ℤ)
      → python_int f (either f (looked o) (int default_port)) ≡ some port
      → coerce_int f (looked o) default_port ≡ port
  unfolding either truthy coerce_int python_int
  lone_port none port h = cc
  lone_port (some String.[]) port h = cc
  lone_port (some (String.◌∷◌ c s)) port h = rw h refl

  port_same :
      (a : Json) (o : Option String) (port : ℤ)
      → python_int f (either f (either f a (looked o)) (int default_port)) ≡ some port
      → coerce_int f (either f a (looked o)) default_port ≡ port
  unfolding coerce_int
  port_same a o port = elim (Bool-cases (truthy f a)) [
    | inl e ↦
        rw (either-truthy a (looked o) e, either-truthy a (int default_port) e)
          (λ h. rw (truthy-present a e, h, coerce_int) refl)
    | inr e ↦ rw (either-falsy a (looked o) e) (lone_port o port)
  ]

  lone_host :
      (o : Option String)
      → in_set loopback_hosts (looked_or default_host o) ≡ found
      → either f (looked o) (string default_host) ≡ looked_or default_host o
  unfolding either truthy in_set
  lone_host none h = refl
  lone_host (some String.[]) h = cc
  lone_host (some (String.◌∷◌ c s)) h = refl

  host_same :
      (a : Json) (o : Option String)
      → in_set loopback_hosts (either f a (looked_or default_host o)) ≡ found
      → either f (either f a (looked o)) (string default_host)
        ≡ either f a (looked_or default_host o)
  host_same a o = elim (Bool-cases (truthy f a)) [
    | inl e ↦
        rw (either-truthy a (looked o) e, either-truthy a (looked_or default_host o) e)
          (λ h. either-truthy a (string default_host) e)
    | inr e ↦
        rw (either-falsy a (looked o) e, either-falsy a (looked_or default_host o) e) (lone_host o)
  ]

  module _ (extra : Members) (env : Dict String) where
    tokens_agree : config_token f extra env ≡ resolve_token f extra env
    unfolding config_token resolve_token environ_get environ_or
    tokens_agree =
        ap stripped (token_same (Json.get extra "token") (Dict.get env "STAGEWHISPER_RELAY_TOKEN"))

    ports_agree : (port : ℤ) → config_port f extra env ≡ some port → resolve_port f extra env ≡ port
    unfolding config_port resolve_port environ_get
    ports_agree port h =
        port_same (Json.get extra "listen_port") (Dict.get env "STAGEWHISPER_LISTEN_PORT") port h

    hosts_agree :
        in_set loopback_hosts (config_host f extra env) ≡ found
        → resolve_host f extra env ≡ config_host f extra env
    unfolding config_host resolve_host environ_get environ_or
    hosts_agree h =
        host_same (Json.get extra "listen_host") (Dict.get env "STAGEWHISPER_LISTEN_HOST") h

    -- What `validate_config` has checked where it accepts.
    accepts-inv :
        validate_config f extra env ≡ accepts
        → (token : String) × (port : ℤ) × (config_token f extra env ≡ some token)
          × (is_empty token ≡ false)
          × (config_port f extra env ≡ some port)
          × (is_port port ≡ true)
          × (in_set loopback_hosts (config_host f extra env) ≡ found)
    unfolding validate_config
    accepts-inv h = elim (Option-cases (config_token f extra env)) [
      | inl t ↦ absurd (ground (arith, t, h))
      | inr (token, t) ↦ elim (Bool-cases (is_empty token)) [
        | inl e ↦ absurd (ground (arith, t, e, h))
        | inr e ↦
            (let (port, p, ok, host) =
                port_verdict-inv (config_port f extra env)
                  (in_set loopback_hosts (config_host f extra env)) (ground (arith, t, e, h)) in
              (token, port, t, e, p, ok, host))
      ]
    ]

    built_from :
        (token : String) (port : ℤ) (m : ℕ)
        → config_token f extra env ≡ some token
        → is_empty token ≡ false
        → config_port f extra env ≡ some port
        → is_port port ≡ true
        → in_set loopback_hosts (config_host f extra env) ≡ found
        → resolve_max_concurrent f extra env ≡ pos m
        → construct f extra env
          ≡ built (record {
            token = token;
            host = config_host f extra env;
            port = magnitude port;
            max_concurrent = m;
            dedup_size = resolve_dedup_size f extra env;
          })
    unfolding construct
    built_from token port m t e p ip h r =
        rw (sym tokens_agree, t, e, hosts_agree h, h, ports_agree port p, ip, r, construct) refl

-- A config that `validate_config` accepts, with a `max_concurrent` that is not negative, makes an
-- adapter. The token of its settings is the config's, and not empty, its host the one that
-- `validate_config` read, which is a loopback one, and its port the one that `validate_config` read, from 1024 to 65535. `is_connected` is true
-- of such a config.
pub validate_config-IsUsable :
    (f : Floats) (extra : Members) (env : Dict String) (m : ℕ)
    → validate_config f extra env ≡ accepts
    → resolve_max_concurrent f extra env ≡ pos m
    → ((s : Settings) × IsUsable f extra env s
        × (config_token f extra env ≡ some s.token)
        × (s.host ≡ config_host f extra env)
        × (s.max_concurrent ≡ m))
      × (is_connected f extra env ≡ accepts)
unfolding is_connected
validate_config-IsUsable f extra env m h r =
    let (token, port, t, e, p, ok, host) = accepts-inv f extra env h in
    let (n, is_n, low, high) = is_port-inv port ok in
    (
      (
        record {
          token = token;
          host = config_host f extra env;
          port = n;
          max_concurrent = m;
          dedup_size = resolve_dedup_size f extra env;
        },
        record {
          is_built =
              built_from f extra env token (pos n) m t e (p ∙ ap some is_n) (rw is_n at ok) host r;
          token = e;
          host = host;
          low = low;
          high = high;
          port = p ∙ ap some is_n;
        },
        t,
        refl,
        refl,
      ),
      rw (t, e, is_connected) refl,
    )
