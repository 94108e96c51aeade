-- ===== src/Text/Lines.antt =====
-- Python's `str.splitlines`, `str.partition` and `"\n".join`.
use hermes_stagewhisper_plug.Prelude.{
  ℕ, String, Char, code, Bool, false, ◌||◌, ◌&&◌, List, [], ◌∷◌, leb, eqb, if◌then◌else◌,
}
use hermes_stagewhisper_plug.Text.{◌<>◌}

-- the characters that end a line
unfoldable pub is_break : Char → Bool
is_break ch =
    let c = code ch in
    (leb 10 c && leb c 13) || (leb 28 c && leb c 30) || eqb c 133 || eqb c 8232 || eqb c 8233

-- a character in front of the first line
abbrev pub onto_first : Char → List String → List String
onto_first c [] = String.◌∷◌ c String.[] ∷ []
onto_first c (l ∷ ls) = String.◌∷◌ c l ∷ ls

-- text.splitlines(): a carriage return and a newline after it are one end of a line
unfoldable pub splitlines : String → List String
unfolding is_break
splitlines String.[] = []
splitlines (String.◌∷◌ c String.[]) = if is_break c then "" ∷ [] else String.◌∷◌ c String.[] ∷ []
splitlines (String.◌∷◌ c (String.◌∷◌ d s)) =
    let after_two = splitlines s in
    let after_one = splitlines (String.◌∷◌ d s) in
    if eqb (code c) 13 && eqb (code d) 10
    then "" ∷ after_two
    else if is_break c
    then "" ∷ after_one
    else onto_first c after_one

-- what stands after the first such character, or nothing
unfoldable pub after_char : ℕ → String → String
after_char sep String.[] = String.[]
after_char sep (String.◌∷◌ c s) =
    let rest = after_char sep s in if eqb (code c) sep then s else rest

-- char in text
unfoldable pub has_char : ℕ → String → Bool
has_char sep String.[] = false
has_char sep (String.◌∷◌ c s) = eqb (code c) sep || has_char sep s

-- text.lstrip(char), text.rstrip(char) and text.strip(char), of one character
unfoldable pub strip_char_left : ℕ → String → String
strip_char_left q String.[] = String.[]
strip_char_left q (String.◌∷◌ c s) =
    let rest = strip_char_left q s in if eqb (code c) q then rest else String.◌∷◌ c s

abbrev pub end_or : ℕ → Char → String → String
end_or q c String.[] = if eqb (code c) q then String.[] else String.◌∷◌ c String.[]
end_or q c (String.◌∷◌ d s) = String.◌∷◌ c (String.◌∷◌ d s)

unfoldable pub strip_char_right : ℕ → String → String
strip_char_right q String.[] = String.[]
strip_char_right q (String.◌∷◌ c s) = end_or q c (strip_char_right q s)

unfoldable pub strip_char : ℕ → String → String
unfolding strip_char_left strip_char_right
strip_char q s = strip_char_left q (strip_char_right q s)

-- "\n".join(lines) + "\n", of lines that are not none
unfoldable pub join_lines : List String → String
join_lines [] = "\n"
join_lines (l ∷ []) = l <> "\n"
join_lines (l ∷ (m ∷ ls)) = l <> "\n" <> join_lines (m ∷ ls)
