-- ===== src/Exports/Examples.antt =====
-- The theorems on /etc/exports at a concrete file.
use aiomb.Prelude.{
  ◌≡◌, refl, List, [], ◌∷◌, true, false, some, Text, codes, arith, if◌then◌else◌, All, ◌↔◌,
}
use aiomb.CString.{has_byte, isspace}
use aiomb.Exports.{
  EnsureEnv, RemoveEnv, exited, fallback, ensure_overlay_export, remove_overlay_export,
  export_entry, generate_fsid_uuid, line_matches_mountpath, run_exportfs_refresh,
}
use aiomb.Exports.Lines.{unlines, IsLine, IsMountpoint, of_mountpoint, any_of}
use aiomb.Exports.Entries.{IsEntry}
use aiomb.Exports.Update.{
  others, remove_overlay_export_lem, remove_overlay_export_fails, remove-ensure,
}

abbrev sandbox : Text
sandbox = codes "/ws/sb1"

abbrev lines : List Text
lines = codes "/srv *(ro)" ∷ codes "/ws/sb10 *(rw)" ∷ []

abbrev fsid : Text
fsid = codes "00c0ffee"

abbrev good : EnsureEnv
good = record {
  fsid = fallback fsid;
  reread = true;
  writable = true;
  printed = true;
  exportfs = exited 0;
}

abbrev unread : EnsureEnv
unread = record good { reread = false }

abbrev removable : RemoveEnv
removable = record { tmp_opened = true; flushed = true; renamed = true; exportfs = exited 0 }

abbrev readonly : RemoveEnv
readonly = record removable { renamed = false }

sandbox-IsMountpoint : IsMountpoint sandbox
unfolding isspace has_byte
sandbox-IsMountpoint = (refl, refl, refl)

lines-IsLine : All IsLine lines
unfolding has_byte
lines-IsLine = ((refl, omega arith), ((refl, omega arith), tt))

fsid_read : generate_fsid_uuid good.fsid 128 ≡ some fsid
unfolding generate_fsid_uuid
fsid_read = refl

entry-IsLine : IsLine (export_entry sandbox fsid)
unfolding has_byte
entry-IsLine = (refl, omega arith)

no_entry : any_of (of_mountpoint sandbox) lines ≡ false
unfolding line_matches_mountpath
no_entry = refl

remove_overlay_export_lem_example :
    (remove_overlay_export removable (some (unlines lines)) sandbox ≡ record {
      file = some (unlines (others sandbox lines));
      ok =
          if any_of (of_mountpoint sandbox) lines
          then run_exportfs_refresh removable.exportfs
          else true;
    })
    × ((l : Text) → (of_mountpoint sandbox l ≡ true) ↔ IsEntry sandbox l)
remove_overlay_export_lem_example =
    remove_overlay_export_lem removable lines sandbox sandbox-IsMountpoint lines-IsLine refl

remove_overlay_export_fails_example :
    remove_overlay_export readonly (some (unlines lines)) sandbox
    ≡ record { file = some (unlines lines); ok = false }
remove_overlay_export_fails_example =
    remove_overlay_export_fails readonly (some (unlines lines)) sandbox refl

remove-ensure_example :
    (remove_overlay_export removable
      (ensure_overlay_export good (some (unlines lines)) sandbox).file
      sandbox).file
    ≡ some (unlines lines)
remove-ensure_example =
    remove-ensure good removable lines sandbox fsid sandbox-IsMountpoint lines-IsLine entry-IsLine
      fsid_read refl refl no_entry
