-- ===== src/DraftStream/Turn.antt =====
-- A whole turn of draft_stream.py, seen by a reader of its chunks.
use hermes_stagewhisper_plug.Prelude.{
  String, ◌≡◌, refl, ◌⊎◌, inl, inr, Bool, true, false, none, some, List, [], ◌∷◌, ◌++◌, eq_refl,
  arith, Bool-cases, if◌then◌else◌,
}
use hermes_stagewhisper_plug.Dict
use hermes_stagewhisper_plug.Dict.Laws.{get-put, get-remove}
use hermes_stagewhisper_plug.Text.{is_empty, starts_with}
use hermes_stagewhisper_plug.DraftStream.{
  TurnStreamState, Chunk, announce, open_part, extend, advance_turn, common_prefix, advance,
  closing, close, emit, StreamChunkTracker, or_new, finish,
}
use hermes_stagewhisper_plug.DraftStream.Reader.{
  View, blank, read_all, read_all-append, view_of, announce-read, open_part-read, open_part-extends,
  open_part-part_open, extend-sent, extend-read,
}

module _ (fresh task_id content : String) (settled : Bool) (s : TurnStreamState) where
  -- the parts of `_advance`
  abbrev begun : TurnStreamState
  begun = (announce task_id s).0

  abbrev settled_content : String
  settled_content = if settled then content else common_prefix begun.last_snapshot content

  abbrev opened : TurnStreamState
  opened = (open_part fresh settled_content (record begun { last_snapshot = content })).0

  announced : begun.started ≡ true
  unfolding announce
  announced = ground arith

  extends_opened :
      (is_empty settled_content ≡ true) ⊎ (starts_with settled_content opened.sent_content ≡ true)
  extends_opened = elim (Bool-cases (is_empty settled_content)) [
    | inl e ↦ inl e
    | inr e ↦
        inr (open_part-extends fresh settled_content (record begun { last_snapshot = content }) e)
  ]

  -- The chunks of one snapshot are read without a breach, and leave the reader in step.
  pub advance_turn-read :
      read_all (view_of s) (advance_turn fresh task_id content settled s).1
      ≡ some (view_of (advance_turn fresh task_id content settled s).0)
  unfolding advance_turn
  advance_turn-read =
      rw (read_all-append, read_all-append, announce-read)
        (rw
          (open_part-read fresh settled_content (record begun { last_snapshot = content })
            announced)
          (extend-read settled_content opened (open_part-part_open fresh settled_content _)
            extends_opened))

  pub advance_turn-part_open : (advance_turn fresh task_id content settled s).0.part_open ≡ true
  unfolding advance_turn extend
  advance_turn-part_open =
      ground (
        arith,
        open_part-part_open fresh settled_content (record begun { last_snapshot = content }),
      )

  pub advance_turn-started : (advance_turn fresh task_id content settled s).0.started ≡ true
  unfolding advance_turn extend open_part
  advance_turn-started = ground (arith, announced)

  -- The reader shows every settled snapshot that is not empty.
  pub advance_turn-sent :
      is_empty settled_content ≡ false
      → (advance_turn fresh task_id content settled s).0.sent_content ≡ settled_content
  unfolding advance_turn
  advance_turn-sent h =
      extend-sent settled_content opened (open_part-extends fresh settled_content _ h)

-- The snapshots of a turn before its last, each with the part id it would draw.
unfoldable pub stream_drafts :
    StreamChunkTracker → String → List (String × String) → StreamChunkTracker × List Chunk
stream_drafts turns task_id [] = (turns, [])
stream_drafts turns task_id ((fresh, content) ∷ drafts) =
    let (turns₁, chunks) = emit fresh turns task_id content false in
    let (turns₂, more) = stream_drafts turns₁ task_id drafts in (turns₂, chunks ++ more)

-- All the chunks of a turn that ends with the text `final`.
unfoldable pub stream_turn :
    StreamChunkTracker
    → String
    → List (String × String)
    → String
    → String
    → StreamChunkTracker × List Chunk
stream_turn turns task_id drafts fresh final =
    let (turns₁, chunks) = stream_drafts turns task_id drafts in
    let (turns₂, ending) = emit fresh turns₁ task_id final true in (turns₂, chunks ++ ending)

abbrev state_of : StreamChunkTracker → String → TurnStreamState
state_of turns task_id = or_new (Dict.get turns task_id)

emit-read :
    (fresh : String) (turns : StreamChunkTracker) (task_id content : String)
    → read_all (view_of (state_of turns task_id)) (emit fresh turns task_id content false).1
      ≡ some (view_of (state_of (emit fresh turns task_id content false).0 task_id))
unfolding emit advance
emit-read fresh turns task_id content =
    rw (get-put, eq_refl) (advance_turn-read fresh task_id content false (state_of turns task_id))

stream_drafts-read :
    (turns : StreamChunkTracker) (task_id : String) (drafts : List (String × String))
    → read_all (view_of (state_of turns task_id)) (stream_drafts turns task_id drafts).1
      ≡ some (view_of (state_of (stream_drafts turns task_id drafts).0 task_id))
unfolding stream_drafts
stream_drafts-read turns task_id [] = unfold read_all in refl
stream_drafts-read turns task_id ((fresh, content) ∷ drafts) =
    rw (read_all-append, emit-read)
      (stream_drafts-read (emit fresh turns task_id content false).0 task_id drafts)

stream_drafts-read_blank :
    (turns : StreamChunkTracker) (task_id : String) (drafts : List (String × String))
    → Dict.get turns task_id ≡ none
    → read_all blank (stream_drafts turns task_id drafts).1
      ≡ some (view_of (state_of (stream_drafts turns task_id drafts).0 task_id))
stream_drafts-read_blank turns task_id drafts new =
    rw new at (stream_drafts-read turns task_id drafts)

closing-read :
    (s : TurnStreamState)
    → s.part_open ≡ true
    → s.started ≡ true
    → read_all (view_of s) (closing (some s) ++ finish ∷ [])
      ≡ some (record (view_of s) { part_open = false; finished = true })
unfolding read_all
closing-read s o b = ground (arith, eq_refl s.part_id)

-- The end of a turn: what the reader then holds, and that the tracker forgets the turn.
emit-finish :
    (fresh : String) (turns : StreamChunkTracker) (task_id final : String)
    → is_empty final ≡ false
    → (v : View) × (read_all
          (view_of (state_of turns task_id))
          (emit fresh turns task_id final true).1
        ≡ some v)
      × (v.finished ≡ true)
      × (v.part_open ≡ false)
      × (v.shown ≡ final)
      × (Dict.get (emit fresh turns task_id final true).0 task_id ≡ none)
unfolding emit advance close
emit-finish fresh turns task_id final full =
    let s : TurnStreamState = state_of turns task_id in
    (
      record (view_of (advance_turn fresh task_id final true s).0) {
        part_open = false;
        finished = true;
      },
      rw (read_all-append, advance_turn-read, get-put, eq_refl)
          (closing-read (advance_turn fresh task_id final true s).0
            (advance_turn-part_open fresh task_id final true s)
            (advance_turn-started fresh task_id final true s)),
      refl,
      refl,
      advance_turn-sent fresh task_id final true s full,
      rw (get-remove, eq_refl),
    )

-- A reader of a turn that ends with a text that is not empty meets no breach of the protocol,
-- sees the turn finish, and then shows exactly that text; the tracker has forgotten the turn.
-- The turn is new to the tracker, and its earlier snapshots are arbitrary.
pub stream_turn-read :
    (turns : StreamChunkTracker) (task_id : String) (drafts : List (String × String))
    (fresh final : String)
    → Dict.get turns task_id ≡ none
    → is_empty final ≡ false
    → (v : View) × (read_all blank (stream_turn turns task_id drafts fresh final).1 ≡ some v)
      × (v.finished ≡ true)
      × (v.part_open ≡ false)
      × (v.shown ≡ final)
      × (Dict.get (stream_turn turns task_id drafts fresh final).0 task_id ≡ none)
unfolding stream_turn
stream_turn-read turns task_id drafts fresh final new full =
    let r = emit-finish fresh (stream_drafts turns task_id drafts).0 task_id final full in
    (
      r.0,
      rw (read_all-append, stream_drafts-read_blank turns task_id drafts new) r.1,
      r.2,
      r.3,
      r.4,
      r.5,
    )
