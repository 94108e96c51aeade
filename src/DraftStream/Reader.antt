-- ===== src/DraftStream/Reader.antt =====
-- A reader of the chunk protocol, and what it shows of a reply that draft_stream.py streamed.
use Prim.Native.String.{count}
use text.Mathlib.TextLemmas.{append-nil}
use hermes_stagewhisper_plug.Prelude.{
  ℕ, sym, String, ◌≡◌, refl, ◌∙◌, ap, ◌⊎◌, inl, inr, Bool, true, false, not, ◌&&◌, Option, none,
  some, List, [], ◌∷◌, ◌++◌, ◌==◌, eq_refl, arith, Bool-cases, Option-cases, if◌then◌else◌,
}
use hermes_stagewhisper_plug.Text.{◌<>◌, starts_with, drop_chars, is_empty}
use hermes_stagewhisper_plug.Text.Laws.{
  append-drop_chars, empty→eq, drop_chars-empty, starts_with-empty,
}
use hermes_stagewhisper_plug.DraftStream.{
  TurnStreamState, Chunk, start, text_start, text_end, text_delta, finish, announce, open_part,
  extend,
}

-- What a reader holds: whether the reply has begun and finished, the part that is open, if one
-- is, and the text of the newest part.
pub record View : Type 0 where
  pub begun : Bool
  pub part_open : Bool
  pub part_id : String
  pub shown : String
  pub finished : Bool

abbrev pub blank : View
blank = record { begun = false; part_open = false; part_id = ""; shown = ""; finished = false }

-- `none` is a breach of the protocol: a chunk out of order, or for a part that is not open.
unfoldable pub read : View → Chunk → Option View
read v (start id) = if v.begun then none else some (record v { begun = true })
read v (text_start id) =
    if v.begun && not v.part_open && not v.finished
    then some (record v { part_open = true; part_id = id; shown = "" })
    else none
read v (text_delta id delta) =
    if v.part_open && v.part_id == id then some (record v { shown = v.shown <> delta }) else none
read v (text_end id) =
    if v.part_open && v.part_id == id then some (record v { part_open = false }) else none
read v finish =
    if v.begun && not v.part_open && not v.finished
    then some (record v { finished = true })
    else none

abbrev pub and_then : Option View → (View → Option View) → Option View
and_then none f = none
and_then (some v) f = f v

unfoldable pub read_all : View → List Chunk → Option View
unfolding read
read_all v [] = some v
read_all v (c ∷ cs) = and_then (read v c) (λ v'. read_all v' cs)

pub read_all-append :
    (v : View) (xs ys : List Chunk)
    → read_all v (xs ++ ys) ≡ and_then (read_all v xs) (λ v'. read_all v' ys)
unfolding read_all
read_all-append v [] ys = refl
read_all-append v (c ∷ cs) ys = elim (Option-cases (read v c)) [
  | inl e ↦ rw e
  | inr (v', e) ↦ rw e (read_all-append v' cs ys)
]

-- The view of a reader that has read all that the tracker sent for a turn.
abbrev pub view_of : TurnStreamState → View
view_of s = record {
  begun = s.started;
  part_open = s.part_open;
  part_id = s.part_id;
  shown = s.sent_content;
  finished = false;
}

pub announce-read :
    (task_id : String) (s : TurnStreamState)
    → read_all (view_of s) (announce task_id s).1 ≡ some (view_of (announce task_id s).0)
unfolding read_all announce
announce-read task_id s = ground arith

pub open_part-read :
    (fresh settled : String) (s : TurnStreamState)
    → s.started ≡ true
    → read_all (view_of s) (open_part fresh settled s).1
      ≡ some (view_of (open_part fresh settled s).0)
unfolding read_all open_part
open_part-read fresh settled s h = ground (arith, eq_refl s.part_id)

-- What `open_part` leaves: an open part whose text the next delta extends.
pub open_part-extends :
    (fresh settled : String) (s : TurnStreamState)
    → is_empty settled ≡ false
    → starts_with settled (open_part fresh settled s).0.sent_content ≡ true
unfolding open_part
open_part-extends fresh settled s h = ground (arith, starts_with-empty settled)

pub open_part-part_open :
    (fresh settled : String) (s : TurnStreamState) → (open_part fresh settled s).0.part_open ≡ true
unfolding open_part
open_part-part_open fresh settled s = ground arith

empty_delta :
    (settled : String) (n : ℕ) → is_empty settled ≡ true → is_empty (drop_chars n settled) ≡ true
empty_delta settled n h = rw (empty→eq settled h, drop_chars-empty)

pub extend-sent :
    (settled : String) (s : TurnStreamState)
    → starts_with settled s.sent_content ≡ true
    → (extend settled s).0.sent_content ≡ settled
unfolding extend
extend-sent settled s h =
    let delta = drop_chars (count s.sent_content) settled in
    elim (Bool-cases (is_empty delta)) [
      | inl e ↦
          rw (e, extend)
            (sym (append-nil s.sent_content)
              ∙ ap (λ d. s.sent_content <> d) (sym (empty→eq delta e))
              ∙ append-drop_chars settled s.sent_content h)
      | inr e ↦ rw (e, extend)
    ]

pub extend-read :
    (settled : String) (s : TurnStreamState)
    → s.part_open ≡ true
    → (is_empty settled ≡ true) ⊎ (starts_with settled s.sent_content ≡ true)
    → read_all (view_of s) (extend settled s).1 ≡ some (view_of (extend settled s).0)
unfolding read_all extend
extend-read settled s ready (inl h) = ground (arith, empty_delta settled (count s.sent_content) h)
extend-read settled s ready (inr h) =
    ground (arith, eq_refl s.part_id, append-drop_chars settled s.sent_content h)
