-- ===== src/Text/Laws.antt =====
-- The laws of prefixes and slices.
use Prim.Native.String.{count}
use Prim.Native.String.count
use text.Mathlib.TextLemmas.{nil-append, cons-append}
use text.Mathlib.TextEquality.{Char-path}
use hermes_stagewhisper_plug.Prelude.{
  ℕ, String, Char, code, ◌≡◌, refl, zero, suc, true, ◌&&◌, Bool, arith, eqb_iff,
}
use hermes_stagewhisper_plug.Text.{◌<>◌, same_char, starts_with, drop_chars, is_empty}

pub same_char→eq : (c d : Char) → same_char c d ≡ true → c ≡ d
same_char→eq c d h = Char-path c d ((eqb_iff (code c) (code d)).0 h)

pub same_char_refl : (c : Char) → same_char c c ≡ true
same_char_refl c = ground arith

pub and_true : (a b : Bool) → (a && b) ≡ true → (a ≡ true) × (b ≡ true)
and_true a b h = ground arith

-- What starts with `t` is `t` and what follows its length.
pub append-drop_chars : (s t : String) → starts_with s t ≡ true → t <> drop_chars (count t) s ≡ s
unfolding starts_with drop_chars
append-drop_chars s String.[] h = nil-append s
append-drop_chars String.[] (String.◌∷◌ d t) h = cc
append-drop_chars (String.◌∷◌ c s) (String.◌∷◌ d t) h =
    let (e, r) = and_true _ _ h in
    rw (count.cons, cons-append, append-drop_chars s t r, same_char→eq c d e)

pub empty→eq : (s : String) → is_empty s ≡ true → s ≡ ""
empty→eq String.[] h = refl
empty→eq (String.◌∷◌ c s) h = cc

pub drop_chars-empty : (n : ℕ) → drop_chars n "" ≡ ""
unfolding drop_chars
drop_chars-empty zero = refl
drop_chars-empty (suc n) = refl

pub starts_with-empty : (s : String) → starts_with s "" ≡ true
unfolding starts_with
starts_with-empty s = refl
