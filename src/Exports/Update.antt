-- ===== src/Exports/Update.antt =====
-- What ensure_overlay_export and remove_overlay_export do to /etc/exports as a list of lines.
use aiomb.Prelude.{
  ◌≡◌, refl, List, [], ◌∷◌, true, false, not, ◌&&◌, Option, none, some, Text, All, select, arith,
  if◌then◌else◌, ◌↔◌,
}
use aiomb.Exports.{
  EnsureEnv, RemoveEnv, generate_fsid_uuid, export_entry, ensure_overlay_export,
  remove_overlay_export, run_exportfs_refresh,
}
use aiomb.Exports.Entries.{IsEntry, of_mountpoint_iff}
use aiomb.Exports.Lines.{
  unlines, IsLine, IsMountpoint, of_mountpoint, any_of, fgets_all-unlines, any_match-unlines,
  copy_unmatched-unlines, entry_matches,
}

abbrev pub others : Text → List Text → List Text
others mp ls = select (λ l. not (of_mountpoint mp l)) ls

remove_overlay_export_written :
    (env : RemoveEnv) (ls : List Text) (mp : Text)
    → IsMountpoint mp
    → All IsLine ls
    → (env.tmp_opened && env.flushed && env.renamed) ≡ true
    → remove_overlay_export env (some (unlines ls)) mp ≡ record {
      file = some (unlines (others mp ls));
      ok = if any_of (of_mountpoint mp) ls then run_exportfs_refresh env.exportfs else true;
    }
unfolding remove_overlay_export
remove_overlay_export_written env ls mp m l done =
    rw (fgets_all-unlines ls l, copy_unmatched-unlines mp ls m, done)

-- When the temporary file is written and renamed, remove_overlay_export takes away the entries of the mount point,
-- keeps the other lines in order, and returns what exportfs does if it took one away, and else 0. An entry of the
-- mount point is exactly a line that has, behind white space, the mount point, and then its end or white space. This
-- supposes lines of less than 8191 bytes, and a mount point that has no newline and starts with no white space.
pub remove_overlay_export_lem :
    (env : RemoveEnv) (ls : List Text) (mp : Text)
    → IsMountpoint mp
    → All IsLine ls
    → (env.tmp_opened && env.flushed && env.renamed) ≡ true
    → (remove_overlay_export env (some (unlines ls)) mp ≡ record {
      file = some (unlines (others mp ls));
      ok = if any_of (of_mountpoint mp) ls then run_exportfs_refresh env.exportfs else true;
    })
      × ((l : Text) → (of_mountpoint mp l ≡ true) ↔ IsEntry mp l)
remove_overlay_export_lem env ls mp m l done =
    (remove_overlay_export_written env ls mp m l done, λ line. of_mountpoint_iff mp line m)

-- When one of these steps fails, it returns -1 and the file is as it was.
pub remove_overlay_export_fails :
    (env : RemoveEnv) (file : Option Text) (mp : Text)
    → (env.tmp_opened && env.flushed && env.renamed) ≡ false
    → remove_overlay_export env file mp ≡ record { file = file; ok = false }
unfolding remove_overlay_export
remove_overlay_export_fails env none mp h = refl
remove_overlay_export_fails env (some content) mp h = rw h

-- With a file that has an entry of the mount point, ensure_overlay_export leaves it alone; without one it
-- puts the entry in front of all lines. This supposes that every step succeeds.
pub ensure_overlay_export_lem :
    (env : EnsureEnv) (ls : List Text) (mp fsid : Text)
    → IsMountpoint mp
    → All IsLine ls
    → generate_fsid_uuid env.fsid 128 ≡ some fsid
    → (env.reread && env.writable && env.printed) ≡ true
    → ensure_overlay_export env (some (unlines ls)) mp ≡ record {
      file =
          some (unlines (if any_of (of_mountpoint mp) ls then ls else export_entry mp fsid ∷ ls));
      ok = run_exportfs_refresh env.exportfs;
    }
unfolding ensure_overlay_export
ensure_overlay_export_lem env ls mp fsid m l f done =
    rw (fgets_all-unlines ls l, any_match-unlines mp ls m, f) (ground arith)

others-none :
    (mp : Text) (ls : List Text) → any_of (of_mountpoint mp) ls ≡ false → others mp ls ≡ ls
unfolding select
others-none mp [] h = refl
others-none mp (l ∷ ls) h = ground (arith, others-none mp ls)

-- Where every step of both succeeds, the second read of the file in ensure_overlay_export and the making of the fsid
-- included, the entry that ensure_overlay_export added is what remove_overlay_export takes away: a file that had no
-- entry of the mount point comes back as it was. This supposes that its lines and the entry have less than 8191
-- bytes, and that the mount point has no newline and starts with no white space.
pub remove-ensure :
    (env : EnsureEnv) (env' : RemoveEnv) (ls : List Text) (mp fsid : Text)
    → IsMountpoint mp
    → All IsLine ls
    → IsLine (export_entry mp fsid)
    → generate_fsid_uuid env.fsid 128 ≡ some fsid
    → (env.reread && env.writable && env.printed) ≡ true
    → (env'.tmp_opened && env'.flushed && env'.renamed) ≡ true
    → any_of (of_mountpoint mp) ls ≡ false
    → (remove_overlay_export env' (ensure_overlay_export env (some (unlines ls)) mp).file mp).file
      ≡ some (unlines ls)
unfolding select
remove-ensure env env' ls mp fsid m l e f done done' n = rw (
  ensure_overlay_export_lem env ls mp fsid m l f done,
  n,
  remove_overlay_export_written env' (export_entry mp fsid ∷ ls) mp m (e, l) done',
  entry_matches mp _ m,
  others-none mp ls n,
)

-- If the file cannot be read into memory a second time, ensure_overlay_export returns what exportfs
-- does, 0 for a success, and every other entry is gone from the file.
pub ensure_overlay_export_loses :
    (env : EnsureEnv) (ls : List Text) (mp fsid : Text)
    → IsMountpoint mp
    → All IsLine ls
    → generate_fsid_uuid env.fsid 128 ≡ some fsid
    → env.reread ≡ false
    → (env.writable && env.printed) ≡ true
    → any_of (of_mountpoint mp) ls ≡ false
    → ensure_overlay_export env (some (unlines ls)) mp ≡ record {
      file = some (unlines (export_entry mp fsid ∷ []));
      ok = run_exportfs_refresh env.exportfs;
    }
unfolding ensure_overlay_export
ensure_overlay_export_loses env ls mp fsid m l f lost done n =
    rw (fgets_all-unlines ls l, any_match-unlines mp ls m, f, n) (ground arith)
