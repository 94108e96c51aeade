-- ===== src/Json.antt =====
-- JSON values as Python sees them after `json.loads`, and `json.dumps` in its compact form.
use hermes_stagewhisper_plug.Prelude.{
  ℕ, zero, suc, ◌/◌, ◌%◌, String, Char, code, Bool, true, false, ◌||◌, Option, none, some, List, [],
  ◌∷◌, ◌==◌, ltb, eqb, if◌then◌else◌,
}
use hermes_stagewhisper_plug.Text.{◌<>◌, one_of}
use Prim.Native.String.{char_at}

-- `negative n` is the integer -(n + 1). Any other number is the text that Python's `repr` gives of
-- it, which `json.dumps` writes; what it is of a literal is left to `json.loads`, which is not
-- modelled.
mutual
  pub data Json : Type 0 where
    null : Json
    boolean : Bool → Json
    int negative : ℕ → Json
    float : String → Json
    string : String → Json
    array : Items → Json
    object : Members → Json

  pub data Items : Type 0 where
    nil : Items
    cons : Json → Items → Items

  pub data Members : Type 0 where
    end : Members
    member : String → Json → Members → Members

-- the display {"a": x, "b": y}
abbrev pub dict : List (String × Json) → Members
dict [] = end
dict ((k, v) ∷ rest) = member k v (dict rest)

-- d.get(k): `None`, which is also the value of `null`, where the key is missing
unfoldable pub get : Members → String → Json
get end k = null
get (member j v rest) k = if j == k then v else get rest k

-- k in d
unfoldable pub has : Members → String → Bool
has end k = false
has (member j v rest) k = j == k || has rest k

-- isinstance(x, str), with the text
abbrev pub as_string : Json → Option String
as_string (string s) = some s
as_string null = none
as_string (boolean b) = none
as_string (int n) = none
as_string (negative n) = none
as_string (float s) = none
as_string (array xs) = none
as_string (object ms) = none

-- isinstance(x, dict), with its members
abbrev pub as_object : Json → Option Members
as_object (object ms) = some ms
as_object null = none
as_object (boolean b) = none
as_object (int n) = none
as_object (negative n) = none
as_object (float s) = none
as_object (array xs) = none
as_object (string s) = none

-- isinstance(x, bool), with the value
abbrev pub as_boolean : Json → Option Bool
as_boolean (boolean b) = some b
as_boolean null = none
as_boolean (object ms) = none
as_boolean (int n) = none
as_boolean (negative n) = none
as_boolean (float s) = none
as_boolean (array xs) = none
as_boolean (string s) = none

-- `x in {"a", "b"}`: a list or a dict cannot be hashed, and raises `TypeError`
pub data InSet : Type 0 where
  found missing type_error : InSet

unfoldable pub in_set : List String → Json → InSet
in_set names (string s) = if one_of names s then found else missing
in_set names null = missing
in_set names (boolean b) = missing
in_set names (int n) = missing
in_set names (negative n) = missing
in_set names (float s) = missing
in_set names (array xs) = type_error
in_set names (object ms) = type_error

-- the decimal digits of a number, in front of a text; the number of rounds is at most n + 1
unfoldable pub decimal : ℕ → ℕ → String → String
decimal zero n rest = rest
decimal (suc rounds) n rest =
    let shown = String.◌∷◌ (char_at "0123456789" (n % 10)) rest in
    let more = decimal rounds (n / 10) shown in if ltb n 10 then shown else more

unfoldable pub show_nat : ℕ → String
unfolding decimal
show_nat n = decimal (suc n) n ""

-- one character of a JSON string; what lies at 32 and above is written as it is
unfoldable pub escape : Char → String
escape c =
    let n = code c in
    if eqb n 34
    then "\\\""
    else if eqb n 92
    then "\\\\"
    else if eqb n 10
    then "\\n"
    else if eqb n 13
    then "\\r"
    else if eqb n 9
    then "\\t"
    else if eqb n 8
    then "\\b"
    else if eqb n 12
    then "\\f"
    else if ltb n 32
    then "\\u00"
      <> String.◌∷◌ (char_at "01" (n / 16)) (String.◌∷◌ (char_at "0123456789abcdef" (n % 16)) "")
    else String.◌∷◌ c ""

unfoldable pub quoted : String → String
unfolding escape
quoted String.[] = ""
quoted (String.◌∷◌ c s) = escape c <> quoted s

abbrev pub literal : String → String
literal s = "\"" <> quoted s <> "\""

-- json.dumps(value, separators=(",", ":"), ensure_ascii=False)
unfoldable mutual
  unfolding quoted show_nat

  pub dumps : Json → String
  dumps null = "null"
  dumps (boolean true) = "true"
  dumps (boolean false) = "false"
  dumps (int n) = show_nat n
  dumps (negative n) = "-" <> show_nat (suc n)
  dumps (float s) = s
  dumps (string s) = literal s
  dumps (array xs) = "[" <> dump_items xs <> "]"
  dumps (object ms) = "{" <> dump_members ms <> "}"

  pub dump_items : Items → String
  dump_items nil = ""
  dump_items (cons x nil) = dumps x
  dump_items (cons x (cons y ys)) = dumps x <> "," <> dump_items (cons y ys)

  pub dump_members : Members → String
  dump_members end = ""
  dump_members (member k v end) = literal k <> ":" <> dumps v
  dump_members (member k v (member j w ms)) =
      literal k <> ":" <> dumps v <> "," <> dump_members (member j w ms)
