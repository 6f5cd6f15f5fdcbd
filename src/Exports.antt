-- ===== src/Exports.antt =====
-- The /etc/exports entries of mbroker/daemon/mount_ops.c (ensure_overlay_export and what it calls) and
-- of mbroker/daemon/umount_ops.c (remove_overlay_export). What the system answers is an argument.
pub mod Lines
pub mod Entries
pub mod Update
mod Examples
use aiomb.Prelude.{
  ℕ, List, [], ◌∷◌, ◌++◌, Bool, true, false, not, ◌&&◌, ◌||◌, Option, none, some, Text, codes,
  length, is_empty, leb, ◌==◌, if◌then◌else◌,
}
use aiomb.CString.{isspace, trim_left, strip_prefix, fgets_all, first}

-- What `system` returned: -1, a death by signal, an exit code, or a status that is neither.
pub data SystemStatus : Type 0 where
  not_run : SystemStatus
  signaled : ℕ → SystemStatus
  exited : ℕ → SystemStatus
  stopped : SystemStatus

-- run_exportfs_refresh returns 0
unfoldable pub run_exportfs_refresh : SystemStatus → Bool
run_exportfs_refresh (exited code) = code == 0
run_exportfs_refresh _ = false

abbrev pub ends_word : Text → Bool
ends_word [] = true
ends_word (c ∷ s) = isspace c

-- line_matches_mountpath, the same in both files
unfoldable pub line_matches_mountpath : Text → Text → Bool
unfolding isspace trim_left strip_prefix
line_matches_mountpath line mountpath = elim (strip_prefix mountpath (trim_left line)) [
  | none ↦ false
  | some rest ↦ ends_word rest
]

-- How the fsid is come by: the formatted random numbers where /bin/uuidgen is missing, or the output
-- of `uuidgen -r` and the result of `pclose` (`none` where `popen` fails).
pub data FsidSource : Type 0 where
  fallback : Text → FsidSource
  uuidgen : Option (Text × ℕ) → FsidSource

unfoldable pub trim_newlines : Text → Text
trim_newlines [] = []
trim_newlines (c ∷ s) =
    let rest = trim_newlines s in if is_empty rest && (c == 10 || c == 13) then [] else c ∷ rest

abbrev first_line : List Text → Option Text
first_line [] = none
first_line (l ∷ ls) = some l

abbrev non_empty : Text → Option Text
non_empty s = if is_empty s then none else some s

-- generate_fsid_uuid into a buffer of `n` bytes; `none` for the result -1
unfoldable pub generate_fsid_uuid : FsidSource → ℕ → Option Text
unfolding trim_newlines fgets_all
generate_fsid_uuid (fallback text) n =
    if is_empty text || leb n (length text) then none else some text
generate_fsid_uuid (uuidgen none) n = none
generate_fsid_uuid (uuidgen (some (output, rc))) n = elim (first_line (fgets_all n output)) [
  | none ↦ none
  | some line ↦ if rc == 0 then non_empty (trim_newlines line) else none
]

-- The answers to the calls of ensure_overlay_export: whether the file can be read again into memory
-- (the second `fopen` and `malloc`), opened for writing, and printed to.
pub record EnsureEnv : Type 0 where
  pub fsid : FsidSource
  pub reread : Bool
  pub writable : Bool
  pub printed : Bool
  pub exportfs : SystemStatus

-- The file (`none` where it cannot be read) and whether the call returned 0.
pub record Outcome : Type 0 where
  pub file : Option Text
  pub ok : Bool

pub any_match : Text → List Text → Bool
any_match mp [] = false
any_match mp (l ∷ ls) = line_matches_mountpath l mp || any_match mp ls

-- "%s *(rw,sync,no_subtree_check,fsid=%s,crossmnt)\n" without the newline
abbrev pub export_entry : Text → Text → Text
export_entry mp fsid =
    mp ++ (codes " *(rw,sync,no_subtree_check,fsid=" ++ (fsid ++ codes ",crossmnt)"))

prepend_entry : EnsureEnv → Text → Text → Text → Outcome
unfolding run_exportfs_refresh
prepend_entry env content mp fsid =
    let existing : Text = if env.reread then content else [] in
    if not env.writable
    then record { file = some content; ok = false }
    else if not env.printed
    then record { file = some []; ok = false }
    else record {
      file = some (export_entry mp fsid ++ 10 ∷ existing);
      ok = run_exportfs_refresh env.exportfs;
    }

-- ensure_overlay_export
unfoldable pub ensure_overlay_export : EnsureEnv → Option Text → Text → Outcome
unfolding any_match line_matches_mountpath run_exportfs_refresh prepend_entry generate_fsid_uuid
ensure_overlay_export env none mp = record { file = none; ok = false }
ensure_overlay_export env (some content) mp =
    if any_match mp (fgets_all 8192 content)
    then record { file = some content; ok = run_exportfs_refresh env.exportfs }
    else elim (generate_fsid_uuid env.fsid 128) [
      | none ↦ record { file = some content; ok = false }
      | some fsid ↦ prepend_entry env content mp fsid
    ]

-- The answers to the calls of remove_overlay_export.
pub record RemoveEnv : Type 0 where
  pub tmp_opened : Bool
  pub flushed : Bool
  pub renamed : Bool
  pub exportfs : SystemStatus

-- The loop: what is written to the temporary file, and `removed`.
pub copy_unmatched : Text → List Text → Text × Bool
copy_unmatched mp [] = ([], false)
copy_unmatched mp (l ∷ ls) =
    let (out, removed) = copy_unmatched mp ls in
    if line_matches_mountpath l mp then (out, true) else (l ++ out, removed)

-- remove_overlay_export
unfoldable pub remove_overlay_export : RemoveEnv → Option Text → Text → Outcome
unfolding copy_unmatched line_matches_mountpath run_exportfs_refresh
remove_overlay_export env none mp = record { file = none; ok = false }
remove_overlay_export env (some content) mp =
    let (out, removed) = copy_unmatched mp (fgets_all 8192 content) in
    if env.tmp_opened && env.flushed && env.renamed
    then record {
      file = some out;
      ok = if removed then run_exportfs_refresh env.exportfs else true;
    }
    else record { file = some content; ok = false }
