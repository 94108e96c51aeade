-- ===== src/SecureFs.antt =====
-- secure_fs.py: files in directories that someone else may write to.
pub mod Safe
pub mod Whole
use hermes_stagewhisper_plug.Prelude.{
  ℕ, zero, suc, ◌+◌, ◌-◌, min, String, Bool, true, false, not, ◌||◌, Option, none, some, List, [],
  ◌∷◌, ltb, leb, eqb, if◌then◌else◌,
}
use hermes_stagewhisper_plug.Dict
use hermes_stagewhisper_plug.Dict.{Dict}

abbrev pub wipe_chunk_bytes : ℕ
wipe_chunk_bytes = 65536

abbrev pub max_wipe_bytes : ℕ
max_wipe_bytes = 1048576

-- `os.pwrite`: how many of so many bytes it writes at an offset
abbrev pub Pwrite : Type 0
Pwrite = ℕ → ℕ → ℕ

abbrev pub chunk_at : ℕ → ℕ → ℕ
chunk_at size offset = min (size - offset) wipe_chunk_bytes

-- the loop of `_overwrite_in_chunks` from an offset on: where each write begins, and how many bytes
-- it writes; `none` where the fuel runs out
unfoldable pub overwrite_from : Pwrite → ℕ → ℕ → ℕ → Option (List (ℕ × ℕ))
overwrite_from pwrite size zero offset = none
overwrite_from pwrite size (suc fuel) offset =
    let count = pwrite offset (chunk_at size offset) in
    let rest = overwrite_from pwrite size fuel (offset + count) in
    if leb size offset
    then some []
    else elim rest [ none ↦ none | some writes ↦ some ((offset, count) ∷ writes) ]

-- `_overwrite_in_chunks`
unfoldable pub overwrite_in_chunks : Pwrite → ℕ → Option (List (ℕ × ℕ))
unfolding overwrite_from
overwrite_in_chunks pwrite size =
    if eqb size 0 || ltb max_wipe_bytes size
    then some []
    else overwrite_from pwrite size (suc size) 0

pub record FileInfo : Type 0 where
  pub regular : Bool
  pub uid : ℕ
  pub size : ℕ

-- How the open of a file in a trusted directory ends; a symbolic link cannot be opened.
pub data Opened : Type 0 where
  not_found cannot_open : Opened
  opened : FileInfo → Opened

-- How `unlink_owned_regular_file` ends: with False, with True and what was overwritten, with a
-- `ValueError`, with the `OSError` of a system call, or not at all.
pub data Unlinked : Type 0 where
  missing refused os_error endless : Unlinked
  removed : List (ℕ × ℕ) → Unlinked

-- the wipe and the removal, where `true` says that one of their system calls raises
abbrev pub after_wipe : Bool → Option (List (ℕ × ℕ)) → Unlinked
after_wipe true writes = os_error
after_wipe false none = endless
after_wipe false (some writes) = removed writes

-- The name is taken to stand for the file that was opened until it is removed.
unfoldable pub unlink_owned_regular_file : Pwrite → Bool → Opened → ℕ → Unlinked
unfolding overwrite_in_chunks
unlink_owned_regular_file pwrite raises not_found owner = missing
unlink_owned_regular_file pwrite raises cannot_open owner = refused
unlink_owned_regular_file pwrite raises (opened info) owner =
    if not info.regular
    then refused
    else if not (eqb info.uid owner)
    then refused
    else after_wipe raises (overwrite_in_chunks pwrite info.size)

-- Where `write_regular_file` fails, if it does: at the open of the temporary file, at `fchown`, with
-- some of the text written, or at `os.replace`; or it is interrupted by what is no `Exception`, with
-- some of the text written.
pub data Failure : Type 0 where
  no_failure open_fails chown_fails replace_fails : Failure
  write_fails interrupted : String → Failure

-- The names and texts in the directory, and whether the call raised.
pub record Written : Type 0 where
  pub files : Dict String
  pub raised : Bool

-- the `except` clause, where `true` says that its `os.unlink` raises
abbrev pub cleaned : Bool → Dict String → String → Written
cleaned true files tmp_name = record { files = files; raised = true }
cleaned false files tmp_name = record { files = Dict.remove files tmp_name; raised = true }

abbrev pub replaced : Dict String → String → String → String → Dict String
replaced files tmp_name name text = Dict.put (Dict.remove files tmp_name) name text

-- `write_regular_file`, on the files of its directory; an existing `tmp_name` fails the open
unfoldable pub write_regular_file :
    Failure → Bool → Dict String → String → String → String → Written
write_regular_file failure unlink_raises files tmp_name name text =
    if Dict.has files tmp_name then record { files = files; raised = true } else elim failure [
      | open_fails ↦ record { files = files; raised = true }
      | chown_fails ↦ cleaned unlink_raises (Dict.put files tmp_name "") tmp_name
      | write_fails part ↦ cleaned unlink_raises (Dict.put files tmp_name part) tmp_name
      | replace_fails ↦ cleaned unlink_raises (Dict.put files tmp_name text) tmp_name
      | interrupted part ↦ record { files = Dict.put files tmp_name part; raised = true }
      | no_failure ↦ record {
        files = replaced (Dict.put files tmp_name text) tmp_name name text;
        raised = false;
      }
    ]
