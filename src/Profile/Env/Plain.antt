-- ===== src/Profile/Env/Plain.antt =====
-- profile_seed.py: a line that `merge_env_file` writes is read back.
use text.Mathlib.TextLemmas.{append_assoc, nil-append, cons-append}
use hermes_stagewhisper_plug.Prelude.{
  ℕ, ◌≡◌, refl, ◌∙◌, ap, sym, String, Char, code, Bool, true, false, not, ◌&&◌, ◌||◌, leb, eqb,
  if◌then◌else◌, arith,
}
use hermes_stagewhisper_plug.Dict
use hermes_stagewhisper_plug.Dict.{Dict}
use hermes_stagewhisper_plug.Text.{
  ◌<>◌, is_empty, is_space, same_char, starts_with, strip, strip_left, strip_right, before_char,
}
use hermes_stagewhisper_plug.Text.Laws.{and_true}
use hermes_stagewhisper_plug.Text.Lines.{
  after_char, has_char, strip_char, strip_char_left, strip_char_right, end_or,
}
use hermes_stagewhisper_plug.Profile.Env.{parse_env_line, env_line}

-- A character of a variable's name, and one of a value that needs no quoting.
abbrev pub is_name_char : Char → Bool
is_name_char c =
    (leb 48 (code c) && leb (code c) 57)
    || (leb 65 (code c) && leb (code c) 90)
    || (leb 97 (code c) && leb (code c) 122)
    || eqb (code c) 95

abbrev pub is_value_char : Char → Bool
is_value_char c =
    leb 33 (code c) && leb (code c) 126 && not (eqb (code c) 34) && not (eqb (code c) 39)

abbrev pub all_chars : (Char → Bool) → String → Bool
all_chars test String.[] = true
all_chars test (String.◌∷◌ c s) = test c && all_chars test s

-- A name and a value that a line can hold.
pub record IsPlain (key value : String) : Type 0 where
  pub named : is_empty key ≡ false
  pub name : all_chars is_name_char key ≡ true
  pub plain : all_chars is_value_char value ≡ true

-- How texts of such characters are taken apart.
if_never : (b : Bool) (x y : String) → (if b && false then x else y) ≡ y
if_never true x y = refl
if_never false x y = refl

not_empty-append : (s t : String) (d : Char) → is_empty (s <> String.◌∷◌ d t) ≡ false
not_empty-append String.[] t d = rw nil-append refl
not_empty-append (String.◌∷◌ c s) t d = rw cons-append refl

strip_right-last :
    (s : String) (d : Char)
    → is_space d ≡ false
    → strip_right (s <> String.◌∷◌ d "") ≡ s <> String.◌∷◌ d ""
unfolding strip_right
strip_right-last String.[] d h = rw (nil-append, h, strip_right) refl
strip_right-last (String.◌∷◌ c s) d h =
    rw (cons-append, strip_right, strip_right-last s d h, not_empty-append s "" d)
      (if_never (is_space c) _ _)

name_char-space : (c : Char) → is_name_char c ≡ true → is_space c ≡ false
unfolding is_space
name_char-space c h = ground (arith, h)

name_char-sign : (c : Char) → is_name_char c ≡ true → eqb (code c) b'=' ≡ false
name_char-sign c h = ground (arith, h)

name_char-hash : (c : Char) → is_name_char c ≡ true → same_char c "#" ≡ false
name_char-hash c h = ground (arith, h)

before-name :
    (key rest : String)
    → all_chars is_name_char key ≡ true
    → before_char b'=' (key <> String.◌∷◌ "=" rest) ≡ key
unfolding before_char
before-name String.[] rest h = rw nil-append refl
before-name (String.◌∷◌ c s) rest h =
    let (hc, hs) = and_true _ _ h in
    rw (cons-append, before_char, name_char-sign c hc, before-name s rest hs) refl

after-name :
    (key rest : String)
    → all_chars is_name_char key ≡ true
    → after_char b'=' (key <> String.◌∷◌ "=" rest) ≡ rest
unfolding after_char
after-name String.[] rest h = rw nil-append refl
after-name (String.◌∷◌ c s) rest h =
    let (hc, hs) = and_true _ _ h in
    rw (cons-append, after_char, name_char-sign c hc, after-name s rest hs) refl

has-name :
    (key rest : String)
    → all_chars is_name_char key ≡ true
    → has_char b'=' (key <> String.◌∷◌ "=" rest) ≡ true
unfolding has_char
has-name String.[] rest h = rw nil-append refl
has-name (String.◌∷◌ c s) rest h =
    let (hc, hs) = and_true _ _ h in
    rw (cons-append, has_char, name_char-sign c hc, has-name s rest hs) refl

strip_right-name : (key : String) → all_chars is_name_char key ≡ true → strip_right key ≡ key
unfolding strip_right
strip_right-name String.[] h = refl
strip_right-name (String.◌∷◌ c s) h =
    let (hc, hs) = and_true _ _ h in
    rw (strip_right, name_char-space c hc, strip_right-name s hs) refl

strip-name : (key : String) → all_chars is_name_char key ≡ true → strip key ≡ key
unfolding strip strip_left
strip-name key h = rw (strip, strip_right-name key h) (left key h)
  where
    left : (key : String) → all_chars is_name_char key ≡ true → strip_left key ≡ key
    left String.[] h = refl
    left (String.◌∷◌ c s) h = rw (strip_left, name_char-space c (and_true _ _ h).0) refl

value_char-quote : (c : Char) → is_value_char c ≡ true → eqb (code c) b'"' ≡ false
value_char-quote c h = ground (arith, h)

value_char-apostrophe : (c : Char) → is_value_char c ≡ true → eqb (code c) b'\'' ≡ false
value_char-apostrophe c h = ground (arith, h)

-- Of a text without a quote, `strip` of that quote strips nothing.
module _ (q : ℕ) (other : (c : Char) → is_value_char c ≡ true → eqb (code c) q ≡ false) where
  end_or-other : (c : Char) (s : String) → eqb (code c) q ≡ false → end_or q c s ≡ String.◌∷◌ c s
  end_or-other c String.[] h = rw h refl
  end_or-other c (String.◌∷◌ d s) h = refl

  strip_char_right-other :
      (s : String) → all_chars is_value_char s ≡ true → strip_char_right q s ≡ s
  unfolding strip_char_right
  strip_char_right-other String.[] h = refl
  strip_char_right-other (String.◌∷◌ c s) h =
      let (hc, hs) = and_true _ _ h in
      rw (strip_char_right, strip_char_right-other s hs) (end_or-other c s (other c hc))

  strip_char_left-other : (s : String) → all_chars is_value_char s ≡ true → strip_char_left q s ≡ s
  unfolding strip_char_left
  strip_char_left-other String.[] h = refl
  strip_char_left-other (String.◌∷◌ c s) h = rw (strip_char_left, other c (and_true _ _ h).0) refl

  strip_char-other : (s : String) → all_chars is_value_char s ≡ true → strip_char q s ≡ s
  unfolding strip_char
  strip_char-other s h = rw (strip_char, strip_char_right-other s h) (strip_char_left-other s h)

strip_char_right-quote : (s : String) → strip_char_right b'"' (s <> "\"") ≡ strip_char_right b'"' s
unfolding strip_char_right
strip_char_right-quote String.[] = refl
strip_char_right-quote (String.◌∷◌ c s) =
    rw (cons-append, strip_char_right, strip_char_right-quote s) refl

strip_char-quoted :
    (value : String)
    → all_chars is_value_char value ≡ true
    → strip_char b'"' (String.◌∷◌ "\"" (value <> "\"")) ≡ value
unfolding strip_char strip_char_left strip_char_right
strip_char-quoted value h =
    rw
      (
        strip_char,
        strip_char_right,
        strip_char_right-quote value,
        strip_char_right-other b'"' value_char-quote value h,
      )
      (inner value h)
  where
    inner :
        (value : String)
        → all_chars is_value_char value ≡ true
        → strip_char_left b'"' (end_or b'"' "\"" value) ≡ value
    inner String.[] h = refl
    inner (String.◌∷◌ c s) h = strip_char_left-other b'"' value_char-quote (String.◌∷◌ c s) h

-- The text after the sign of a written line, and that line.
quoted : String → String
quoted value = String.◌∷◌ "\"" (value <> "\"")

strip_right-quoted : (value : String) → strip_right (quoted value) ≡ quoted value
unfolding quoted is_space
strip_right-quoted value =
    let parts = cons-append "\"" value "\"" in
    ap strip_right (sym parts) ∙ strip_right-last (String.◌∷◌ "\"" value) "\"" refl ∙ parts

strip-quoted : (value : String) → strip (quoted value) ≡ quoted value
unfolding strip strip_left quoted is_space
strip-quoted value = ap strip_left (strip_right-quoted value)

-- A line that `merge_env_file` writes.
pub written : String → String → String
written key value = key <> String.◌∷◌ "=" (quoted value)

pub env_line-written : (key value : String) → env_line (key, value) ≡ written key value
unfolding written quoted
env_line-written key value =
    ap (λ rest. key <> rest) (rw (cons-append, cons-append, nil-append) refl)

written_ends : (key value : String) → strip_right (written key value) ≡ written key value
unfolding written quoted is_space
written_ends key value =
    let whole : key <> String.◌∷◌ "=" (String.◌∷◌ "\"" (value <> "\""))
        ≡ (key <> String.◌∷◌ "=" (String.◌∷◌ "\"" value)) <> "\"" =
      rw (append_assoc, cons-append, cons-append) refl in
    ap strip_right whole
    ∙ strip_right-last (key <> String.◌∷◌ "=" (String.◌∷◌ "\"" value)) "\"" refl
    ∙ sym whole

strip-written :
    (key value : String)
    → is_empty key ≡ false
    → all_chars is_name_char key ≡ true
    → (strip (written key value) ≡ written key value)
      × (is_empty (written key value) ≡ false)
      × (starts_with (written key value) "#" ≡ false)
unfolding strip strip_left starts_with written
strip-written String.[] value h hk = cc
strip-written (String.◌∷◌ c s) value h hk =
    let hc = (and_true (is_name_char c) (all_chars is_name_char s) hk).0 in
    let line = cons-append c s (String.◌∷◌ "=" (quoted value)) in
    (
      ap strip_left (written_ends (String.◌∷◌ c s) value)
          ∙ ap strip_left line
          ∙ rw (strip_left, name_char-space c hc) refl
          ∙ sym line,
      ap is_empty line,
      ap (λ l. starts_with l "#") line ∙ rw (starts_with, name_char-hash c hc) refl,
    )

-- What is read of a quoted value.
value_read :
    (value : String)
    → all_chars is_value_char value ≡ true
    → strip_char b'\'' (strip_char b'"' (strip (quoted value))) ≡ value
unfolding quoted
value_read value h =
    ap (λ s. strip_char b'\'' (strip_char b'"' s)) (strip-quoted value)
    ∙ ap (strip_char b'\'') (strip_char-quoted value h)
    ∙ strip_char-other b'\'' value_char-apostrophe value h

pub parse_env_line-written :
    (values : Dict String) (key value : String)
    → IsPlain key value
    → parse_env_line values (written key value) ≡ Dict.put values key value
unfolding parse_env_line written
parse_env_line-written values key value p =
    let (stripped, full, other) = strip-written key value p.named p.name in
    rw
      (
        parse_env_line,
        stripped,
        full,
        other,
        has-name key (quoted value) p.name,
        before-name key (quoted value) p.name,
        after-name key (quoted value) p.name,
        strip-name key p.name,
      )
      (ap (Dict.put values key) (value_read value p.plain))
