-- ===== src/Profile/Env/Kept.antt =====
-- profile_seed.py: the lines that `merge_env_file` keeps say all that was said of the other variables.
use hermes_stagewhisper_plug.Prelude.{
  ◌≡◌, refl, ◌∙◌, ap, sym, inl, inr, String, Char, code, Bool, true, false, not, ◌&&◌, ◌||◌, some,
  List, [], ◌∷◌, ◌==◌, keep_if, eqb, if◌then◌else◌, Bool-cases, eq_iff, arith,
}
use hermes_stagewhisper_plug.Dict
use hermes_stagewhisper_plug.Dict.{Dict}
use hermes_stagewhisper_plug.Dict.Laws.{get-put}
use hermes_stagewhisper_plug.Text.{
  is_empty, starts_with, is_space, strip_left, strip_right, strip, before_char,
}
use hermes_stagewhisper_plug.Text.Laws.{empty→eq}
use hermes_stagewhisper_plug.Text.Lines.{after_char, has_char, strip_char}
use hermes_stagewhisper_plug.Profile.Env.{parse_env_line, parse_env_lines, is_kept}

space-sign : (c : Char) → is_space c ≡ true → eqb (code c) b'=' ≡ false
unfolding is_space
space-sign c h = ground (arith, h)

has-strip_left : (s : String) → has_char b'=' (strip_left s) ≡ has_char b'=' s
unfolding strip_left has_char
has-strip_left String.[] = refl
has-strip_left (String.◌∷◌ c s) = elim (Bool-cases (is_space c)) [
  | inl e ↦ rw (strip_left, e, has_char, space-sign c e) (has-strip_left s)
  | inr e ↦ rw (strip_left, e) refl
]

has-strip_right : (s : String) → has_char b'=' (strip_right s) ≡ has_char b'=' s
unfolding strip_right has_char
has-strip_right String.[] = refl
has-strip_right (String.◌∷◌ c s) = elim (Bool-cases (is_space c && is_empty (strip_right s))) [
  | inl e ↦
      (let space : is_space c ≡ true = ground (arith, e) in
        let nothing = empty→eq (strip_right s) (ground (arith, e)) in
        let rest : has_char b'=' s ≡ false = sym (has-strip_right s) ∙ ap (has_char b'=') nothing in
        rw (strip_right, e, has_char, space-sign c space, rest) refl)
  | inr e ↦ rw (strip_right, e, has_char, has-strip_right s) refl
]

has_char-full : (s : String) → has_char b'=' s ≡ true → is_empty s ≡ false
unfolding has_char
has_char-full String.[] h = cc
has_char-full (String.◌∷◌ c s) h = refl

-- The name before the sign is the same of a line without the space around it, but for the space
-- around the name.
before-strip_left : (s : String) → before_char b'=' (strip_left s) ≡ strip_left (before_char b'=' s)
unfolding strip_left before_char
before-strip_left String.[] = refl
before-strip_left (String.◌∷◌ c s) = elim (Bool-cases (is_space c)) [
  | inl e ↦ rw (strip_left, e, before_char, space-sign c e, strip_left, e) (before-strip_left s)
  | inr e ↦ elim (Bool-cases (eqb (code c) b'=')) [
    | inl sign ↦ rw (strip_left, e, before_char, sign) refl
    | inr other ↦ rw (strip_left, e, before_char, other, strip_left, e) refl
  ]
]

before-strip_right :
    (s : String) → has_char b'=' s ≡ true → before_char b'=' (strip_right s) ≡ before_char b'=' s
unfolding strip_right before_char has_char
before-strip_right String.[] h = refl
before-strip_right (String.◌∷◌ c s) h = elim (Bool-cases (eqb (code c) b'=')) [
  | inl sign ↦
      (let solid : is_space c ≡ false = ground (arith, sign, space-sign c) in
        rw (strip_right, solid, before_char, sign) refl)
  | inr other ↦
      (let later : has_char b'=' s ≡ true = ground (arith, other, h) in
        let full : is_empty (strip_right s) ≡ false =
          has_char-full (strip_right s) (has-strip_right s ∙ later) in
        let both : (is_space c && is_empty (strip_right s)) ≡ false = ground (arith, full) in
        rw (strip_right, both, before_char, other, before-strip_right s later) refl)
]

strip_left-twice : (s : String) → strip_left (strip_left s) ≡ strip_left s
unfolding strip_left
strip_left-twice String.[] = refl
strip_left-twice (String.◌∷◌ c s) = elim (Bool-cases (is_space c)) [
  | inl e ↦ rw (strip_left, e) (strip_left-twice s)
  | inr e ↦ rw (strip_left, e, strip_left, e) refl
]

strip_right-left : (s : String) → strip_right (strip_left s) ≡ strip_left (strip_right s)
unfolding strip_left strip_right
strip_right-left String.[] = refl
strip_right-left (String.◌∷◌ c s) = elim (Bool-cases (is_space c)) [
  | inr e ↦ rw (strip_left, e, strip_right, strip_left, e) refl
  | inl e ↦ elim (Bool-cases (is_empty (strip_right s))) [
    | inl o ↦
        rw (strip_left, e, strip_right, o)
          (strip_right-left s ∙ ap strip_left (empty→eq (strip_right s) o))
    | inr o ↦ rw (strip_left, e, strip_right, o, strip_left, e) (strip_right-left s)
  ]
]

strip-before :
    (s : String)
    → has_char b'=' (strip s) ≡ true
    → strip (before_char b'=' (strip s)) ≡ strip (before_char b'=' s)
unfolding strip
strip-before s h =
    let there : has_char b'=' s ≡ true =
      sym (has-strip_left (strip_right s) ∙ has-strip_right s) ∙ h in
    ap strip (before-strip_left (strip_right s) ∙ ap strip_left (before-strip_right s there))
    ∙ ap strip_left (strip_right-left (before_char b'=' s))
    ∙ strip_left-twice (strip_right (before_char b'=' s))

-- A line changes the dictionary at the name it gives, if it gives one.
module _ (values : Dict String) (raw_line : String) where
  name : String
  name = strip (before_char b'=' (strip raw_line))

  value : String
  value = strip_char b'\'' (strip_char b'"' (strip (after_char b'=' (strip raw_line))))

  skips : Bool
  skips =
      is_empty (strip raw_line)
      || starts_with (strip raw_line) "#"
      || not (has_char b'=' (strip raw_line))

  skipped : skips ≡ true → parse_env_line values raw_line ≡ values
  unfolding parse_env_line skips
  skipped e = rw (parse_env_line, e) refl

  given : skips ≡ false → parse_env_line values raw_line ≡ Dict.put values name value
  unfolding parse_env_line skips name value
  given e = rw (parse_env_line, e) refl

parse_env_line-same :
    (values others : Dict String) (raw_line key : String)
    → Dict.get values key ≡ Dict.get others key
    → Dict.get (parse_env_line values raw_line) key ≡ Dict.get (parse_env_line others raw_line) key
unfolding skips name value
parse_env_line-same values others raw_line key h = elim (Bool-cases (skips values raw_line)) [
  | inl e ↦ rw (skipped values raw_line e, skipped others raw_line e) h
  | inr e ↦
      rw (given values raw_line e, given others raw_line e)
        (get-put values (name values raw_line) key (value values raw_line)
          ∙ ap (λ o. if name values raw_line == key then some (value values raw_line) else o) h
          ∙ sym (get-put others (name others raw_line) key (value others raw_line)))
]

-- A line that is not kept is blank, or gives a variable that is merged.
parse_env_line-dropped :
    (additions values : Dict String) (raw_line key : String)
    → is_kept additions raw_line ≡ false
    → Dict.has additions key ≡ false
    → Dict.get (parse_env_line values raw_line) key ≡ Dict.get values key
unfolding is_kept skips name
parse_env_line-dropped additions values raw_line key dropped other =
    elim (Bool-cases (skips values raw_line)) [
      | inl e ↦ ap (λ d. Dict.get d key) (skipped values raw_line e)
      | inr e ↦
          (let sign : has_char b'=' (strip raw_line) ≡ true = ground (arith, e) in
            let merged : Dict.has additions (strip (before_char b'=' raw_line)) ≡ true =
              ground (arith, e, dropped) in
            let named : Dict.has additions (name values raw_line) ≡ true =
              ap (Dict.has additions) (strip-before raw_line sign) ∙ merged in
            ap (λ d. Dict.get d key) (given values raw_line e)
            ∙ get-put values (name values raw_line) key (value values raw_line)
            ∙ elim (Bool-cases (name values raw_line == key)) [
              | inr n ↦ rw n refl
              | inl n ↦ absurd (
                  true_differs (
                    sym named
                    ∙ ap (Dict.has additions) ((eq_iff (name values raw_line) key).0 n)
                    ∙ other))
            ])
    ]
  where
    true_differs : true ≡ false → ⊥
    true_differs h = cc

pub kept-get :
    (additions values others : Dict String) (lines : List String) (key : String)
    → Dict.has additions key ≡ false
    → Dict.get values key ≡ Dict.get others key
    → Dict.get (parse_env_lines values (keep_if (is_kept additions) lines)) key
      ≡ Dict.get (parse_env_lines others lines) key
unfolding parse_env_lines
kept-get additions values others [] key other h = h
kept-get additions values others (line ∷ lines) key other h =
    elim (Bool-cases (is_kept additions line)) [
      | inl e ↦ rw e (
          kept-get additions (parse_env_line values line) (parse_env_line others line) lines key
            other (parse_env_line-same values others line key h))
      | inr e ↦ rw e (
          kept-get additions values (parse_env_line others line) lines key other
            (h ∙ sym (parse_env_line-dropped additions others line key e other)))
    ]
