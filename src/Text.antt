-- ===== src/Text.antt =====
-- Python's `str`: texts are the native `String`, a list of characters, walked by its constructors.
pub mod Laws
pub mod Numbers
pub mod Lines
use Prim.Native.String.{◌++◌ as append, char_at}
use hermes_stagewhisper_plug.Prelude.{
  ℕ, zero, suc, ◌-◌, ◌+◌, String, Char, code, Bool, true, false, ◌&&◌, ◌||◌, List, [], ◌∷◌, ◌==◌,
  any, ltb, leb, eqb, if◌then◌else◌,
}

infixr 65 ◌<>◌
abbrev pub ◌<>◌ : String → String → String
s <> t = append s t

-- left[i] == right[i]
abbrev pub same_char : Char → Char → Bool
same_char c d = eqb (code c) (code d)

-- text.startswith(prefix)
unfoldable pub starts_with : String → String → Bool
starts_with s String.[] = true
starts_with String.[] (String.◌∷◌ d t) = false
starts_with (String.◌∷◌ c s) (String.◌∷◌ d t) = same_char c d && starts_with s t

-- text[n:]
unfoldable pub drop_chars : ℕ → String → String
drop_chars zero s = s
drop_chars (suc n) String.[] = String.[]
drop_chars (suc n) (String.◌∷◌ c s) = drop_chars n s

-- text[:n]
unfoldable pub take_chars : ℕ → String → String
take_chars zero s = String.[]
take_chars (suc n) String.[] = String.[]
take_chars (suc n) (String.◌∷◌ c s) = String.◌∷◌ c (take_chars n s)

-- bool(text)
abbrev pub is_empty : String → Bool
is_empty String.[] = true
is_empty (String.◌∷◌ c s) = false

-- text in {a, b, …}
abbrev pub one_of : List String → String → Bool
one_of names s = any (λ name. name == s) names

-- str.isspace() of one character
unfoldable pub is_space : Char → Bool
is_space ch =
    let c = code ch in
    (leb 9 c && leb c 13)
    || (leb 28 c && leb c 32)
    || eqb c 133
    || eqb c 160
    || eqb c 5760
    || (leb 8192 c && leb c 8202)
    || eqb c 8232
    || eqb c 8233
    || eqb c 8239
    || eqb c 8287
    || eqb c 12288

-- text.lstrip()
unfoldable pub strip_left : String → String
unfolding is_space
strip_left String.[] = String.[]
strip_left (String.◌∷◌ c s) = let rest = strip_left s in if is_space c then rest else String.◌∷◌ c s

-- text.rstrip()
unfoldable pub strip_right : String → String
unfolding is_space
strip_right String.[] = String.[]
strip_right (String.◌∷◌ c s) =
    let rest = strip_right s in if is_space c && is_empty rest then String.[] else String.◌∷◌ c rest

-- text.strip()
unfoldable pub strip : String → String
unfolding strip_left strip_right
strip s = strip_left (strip_right s)

-- text.lower(), of the ASCII letters
unfoldable pub lower : String → String
lower String.[] = String.[]
lower (String.◌∷◌ c s) =
    let n = code c in
    let small = if leb 65 n && leb n 90 then char_at "abcdefghijklmnopqrstuvwxyz" (n - 65) else c in
    String.◌∷◌ small (lower s)

-- text.split(sep), for a separator of one character
unfoldable pub split_on : ℕ → String → List String
split_on sep String.[] = "" ∷ []
split_on sep (String.◌∷◌ c s) = elim (split_on sep s) [
  | [] ↦ []
  | part ∷ parts ↦ if eqb (code c) sep then "" ∷ part ∷ parts else String.◌∷◌ c part ∷ parts
]

-- text.split(sep, 1)[0]
unfoldable pub before_char : ℕ → String → String
before_char sep String.[] = String.[]
before_char sep (String.◌∷◌ c s) =
    let rest = before_char sep s in if eqb (code c) sep then String.[] else String.◌∷◌ c rest
