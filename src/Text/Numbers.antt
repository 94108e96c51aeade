-- ===== src/Text/Numbers.antt =====
-- Python's `int(text)`, over the ASCII digits.
use hermes_stagewhisper_plug.Prelude.{
  ℕ, zero, suc, ◌-◌, ◌+◌, ◌*◌, String, Char, code, Bool, ◌&&◌, Option, none, some, leb, eqb,
  if◌then◌else◌,
}
use hermes_stagewhisper_plug.Text.{strip}

-- `negsuc n` is -(n + 1).
pub data ℤ : Type 0 where
  pos : ℕ → ℤ
  negsuc : ℕ → ℤ

abbrev pub is_digit : Char → Bool
is_digit c = leb 48 (code c) && leb (code c) 57

-- The digits that follow a digit; an underscore may stand between two.
unfoldable pub digits : ℕ → String → Option ℕ
digits n String.[] = some n
digits n (String.◌∷◌ c String.[]) = if is_digit c then some (n * 10 + (code c - 48)) else none
digits n (String.◌∷◌ c (String.◌∷◌ d s)) =
    let plain = digits (n * 10 + (code c - 48)) (String.◌∷◌ d s) in
    let skipped = digits (n * 10 + (code d - 48)) s in
    if is_digit c then plain else if eqb (code c) 95 && is_digit d then skipped else none

unfoldable pub unsigned : String → Option ℕ
unfolding digits
unsigned String.[] = none
unsigned (String.◌∷◌ c s) = if is_digit c then digits (code c - 48) s else none

abbrev pub minus : ℕ → ℤ
minus zero = pos zero
minus (suc n) = negsuc n

unfoldable pub signed : String → Option ℤ
unfolding unsigned
signed String.[] = none
signed (String.◌∷◌ c s) =
    if eqb (code c) 45
    then elim (unsigned s) [ none ↦ none | some n ↦ some (minus n) ]
    else if eqb (code c) 43
    then elim (unsigned s) [ none ↦ none | some n ↦ some (pos n) ]
    else elim (unsigned (String.◌∷◌ c s)) [ none ↦ none | some n ↦ some (pos n) ]

-- `none` is the `ValueError`
unfoldable pub parse_int : String → Option ℤ
unfolding signed strip
parse_int s = signed (strip s)
