-- ===== src/SecureFs/Whole.antt =====
-- secure_fs.py: a file is written as a whole or not at all.
use hermes_stagewhisper_plug.Prelude.{
  ◌≡◌, refl, ◌∙◌, ap, inl, inr, String, Bool, true, false, ◌&&◌, none, some, ◌==◌, if◌then◌else◌,
  Bool-cases, Option-cases, eq_iff, arith,
}
use hermes_stagewhisper_plug.Dict
use hermes_stagewhisper_plug.Dict.{Dict}
use hermes_stagewhisper_plug.Dict.Laws.{get-put, get-remove}
use hermes_stagewhisper_plug.SecureFs.{
  Failure, no_failure, open_fails, chown_fails, write_fails, interrupted, cleaned, replace_fails,
  write_regular_file,
}

has-none : (d : Dict String) (key : String) → Dict.has d key ≡ false → Dict.get d key ≡ none
unfolding Dict.has
has-none d key h = elim (Option-cases (Dict.get d key)) [
  | inl e ↦ e
  | inr (v, e) ↦ absurd (ground (arith, e, h))
]

module _ (files : Dict String) (tmp_name name text j : String)
    (fresh : Dict.get files tmp_name ≡ none) where
  cleaned-get :
      (part : String)
      → Dict.get (Dict.remove (Dict.put files tmp_name part) tmp_name) j ≡ Dict.get files j
  cleaned-get part = ground (
    arith,
    get-remove (Dict.put files tmp_name part) tmp_name j,
    get-put files tmp_name j part,
    eq_iff tmp_name j,
    fresh,
  )

  replaced-get :
      Dict.get (Dict.put (Dict.remove (Dict.put files tmp_name text) tmp_name) name text) j
      ≡ (if name == j then some text else Dict.get files j)
  replaced-get =
      get-put (Dict.remove (Dict.put files tmp_name text) tmp_name) name j text
      ∙ ap (λ o. if name == j then some text else o) (cleaned-get text)

-- Whether a failure can leave the temporary file behind.
abbrev pub leaves_temp : Failure → Bool → Bool
leaves_temp no_failure unlink_raises = false
leaves_temp open_fails unlink_raises = false
leaves_temp chown_fails unlink_raises = unlink_raises
leaves_temp replace_fails unlink_raises = unlink_raises
leaves_temp (write_fails part) unlink_raises = unlink_raises
leaves_temp (interrupted part) unlink_raises = true

module _ (files : Dict String) (tmp_name name text j : String)
    (fresh : Dict.has files tmp_name ≡ false) where
  put_other-get :
      (part : String)
      → (tmp_name == j) ≡ false
      → Dict.get (Dict.put files tmp_name part) j ≡ Dict.get files j
  put_other-get part other = ground (arith, get-put files tmp_name j part, other)

  failed-get :
      (unlink_raises : Bool) (part : String)
      → (tmp_name == j && unlink_raises) ≡ false
      → Dict.get (cleaned unlink_raises (Dict.put files tmp_name part) tmp_name).files j
        ≡ Dict.get files j
  failed-get true part kept = put_other-get part (ground (arith, kept))
  failed-get false part kept =
      cleaned-get files tmp_name name text j (has-none files tmp_name fresh) part

  raised-cleaned :
      (unlink_raises : Bool) (d : Dict String) → (cleaned unlink_raises d tmp_name).raised ≡ true
  raised-cleaned true d = refl
  raised-cleaned false d = refl

  fresh_whole :
      (end : Failure) (unlink_raises : Bool)
      → (tmp_name == j && leaves_temp end unlink_raises) ≡ false
      → Dict.get (write_regular_file end unlink_raises files tmp_name name text).files j ≡ (
          if (write_regular_file end unlink_raises files tmp_name name text).raised
          then Dict.get files j
          else if name == j
          then some text
          else Dict.get files j)
  unfolding write_regular_file
  fresh_whole open_fails u kept = rw (fresh, write_regular_file) refl
  fresh_whole chown_fails u kept =
      rw (fresh, write_regular_file, raised-cleaned u (Dict.put files tmp_name ""))
        (failed-get u "" kept)
  fresh_whole (write_fails part) u kept =
      rw (fresh, write_regular_file, raised-cleaned u (Dict.put files tmp_name part))
        (failed-get u part kept)
  fresh_whole replace_fails u kept =
      rw (fresh, write_regular_file, raised-cleaned u (Dict.put files tmp_name text))
        (failed-get u text kept)
  fresh_whole (interrupted part) u kept =
      rw (fresh, write_regular_file) (put_other-get part (ground (arith, kept)))
  fresh_whole no_failure u kept =
      rw (fresh, write_regular_file)
        (replaced-get files tmp_name name text j (has-none files tmp_name fresh))

-- A call of `write_regular_file` that raises leaves each file of the directory as it was, and one
-- that does not changes no file but the one it names, which holds the text. The temporary file too is
-- as it was, unless the call was interrupted by what is no `Exception`, or its removal raised.
pub write_regular_file-whole :
    (end : Failure) (unlink_raises : Bool) (files : Dict String) (tmp_name name text j : String)
    → (tmp_name == j && leaves_temp end unlink_raises) ≡ false
    → Dict.get (write_regular_file end unlink_raises files tmp_name name text).files j ≡ (
        if (write_regular_file end unlink_raises files tmp_name name text).raised
        then Dict.get files j
        else if name == j
        then some text
        else Dict.get files j)
unfolding write_regular_file
write_regular_file-whole end unlink_raises files tmp_name name text j kept =
    elim (Bool-cases (Dict.has files tmp_name)) [
      | inl there ↦ rw (there, write_regular_file) refl
      | inr e ↦ fresh_whole files tmp_name name text j e end unlink_raises kept
    ]
