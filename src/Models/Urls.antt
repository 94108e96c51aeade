-- ===== src/Models/Urls.antt =====
-- models.py: the callback URLs that the adapter may POST to. The standard library's URL parser
-- is a parameter.
use hermes_stagewhisper_plug.Prelude.{
  ℕ, String, Bool, true, false, not, ◌&&◌, ◌||◌, Option, none, some, List, [], ◌∷◌, map, keep_if,
  if◌then◌else◌,
}
use hermes_stagewhisper_plug.Json.{show_nat}
use hermes_stagewhisper_plug.Text.{◌<>◌, is_empty, one_of, strip, lower, split_on}

-- `parsed.port` raises `ValueError` where it is not a port.
pub data Port : Type 0 where
  absent invalid : Port
  number : ℕ → Port

pub record ParsedUrl : Type 0 where
  pub scheme : String
  pub hostname : Option String
  pub port : Port
  pub path : String
  pub query : String
  pub fragment : String

-- `urlparse`, whose `none` is the `ValueError`, and the two settings of the environment.
pub record UrlHost : Type 0 where
  pub urlparse : String → Option ParsedUrl
  pub allow_callback_urls : Option String
  pub allow_ingress_hosts : Option String

abbrev is_http : String → Bool
is_http scheme = one_of ("http" ∷ "https" ∷ []) scheme

abbrev pub hostname_or_empty : ParsedUrl → String
hostname_or_empty p = elim p.hostname [ none ↦ "" | some host ↦ host ]

abbrev origin_with : ParsedUrl → Port → Option String
origin_with p absent = some (p.scheme <> "://" <> lower (hostname_or_empty p))
origin_with p invalid = none
origin_with p (number n) =
    some (p.scheme <> "://" <> lower (hostname_or_empty p) <> ":" <> show_nat n)

abbrev origin_of : ParsedUrl → Option String
origin_of p =
    if not (is_http p.scheme) || is_empty (hostname_or_empty p) then none else origin_with p p.port

abbrev entries : Option String → List String
entries none = []
entries (some raw) =
    if is_empty raw then [] else keep_if (λ e. not (is_empty (strip e))) (split_on b',' raw)

-- the elements of a set of origins that are not `None`
abbrev given_origins : List (Option String) → List String
given_origins [] = []
given_origins (none ∷ rest) = given_origins rest
given_origins (some o ∷ rest) = o ∷ given_origins rest

module _ (host : UrlHost) where
  -- `_normalize_origin`
  unfoldable pub normalize_origin : String → Option String
  normalize_origin url = elim (host.urlparse (strip url)) [ none ↦ none | some p ↦ origin_of p ]

  unfoldable pub allowed_callback_origins : List String
  unfolding normalize_origin
  allowed_callback_origins = given_origins (map normalize_origin (entries host.allow_callback_urls))

  unfoldable pub allowed_ingress_hosts : List String
  allowed_ingress_hosts = map (λ e. lower (strip e)) (entries host.allow_ingress_hosts)

  abbrev is_nil : List String → Bool
  is_nil [] = true
  is_nil (_ ∷ _) = false

  abbrev is_bare : ParsedUrl → Bool
  is_bare p =
      is_http p.scheme && one_of ("" ∷ "/" ∷ []) p.path && is_empty p.query && is_empty p.fragment

  unfoldable pub is_allowed_callback_url : String → Bool
  unfolding normalize_origin allowed_callback_origins allowed_ingress_hosts
  is_allowed_callback_url url = elim (host.urlparse url) [
    | none ↦ false
    | some p ↦ if not (is_bare p) then false else elim (normalize_origin url) [
      | none ↦ false
      | some origin ↦
          one_of allowed_callback_origins origin
          || (one_of ("127.0.0.1" ∷ "localhost" ∷ []) (lower (hostname_or_empty p))
              && is_nil allowed_ingress_hosts)
    ]
  ]
