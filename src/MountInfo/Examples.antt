-- ===== src/MountInfo/Examples.antt =====
-- The theorems on mbroker/daemon/mountinfo.c at concrete tables.
use aiomb.Prelude.{
  ◌≡◌, refl, [], ◌∷◌, ◌++◌, true, false, none, some, Text, codes, text_eq, arith, if◌then◌else◌,
  Bool, ◌↔◌,
}
use aiomb.CString.{fgets_all, concat, split}
use aiomb.MountInfo.{
  Table, Meta, mountinfo_track, mountinfo_untrack, mountinfo_is_mounted, describe_line,
  mountinfo_flags_for,
}
use aiomb.MountInfo.Slots.{view, stored, Distinct}
use aiomb.MountInfo.Lookup.{view-mountinfo_track, view-mountinfo_untrack, readers-mountinfo_track}
use aiomb.MountInfo.Listing.{live}
use aiomb.MountInfo.Bounds.{IsValid}
use aiomb.MountInfo.Invariant.{track, untrack, run, reachable-IsValid}
use aiomb.MountInfo.Proc.{mountinfo_is_mounted_lem, Listed}

abbrev sb1 : Text
sb1 = codes "/ws/sb1"

abbrev sb2 : Text
sb2 = codes "/ws/sb2"

abbrev meta1 : Meta
meta1 = record {
  flags = 16;
  overlayroot = some (codes "/ov");
  baas_path = some (codes "/bin/baas");
  prebuild_sb = some (codes "vol");
}

-- A slot that was released, and one in use.
abbrev table : Table
table =
    record {
      mountpoint = sb1;
      overlayroot = codes "/ov";
      baas_path = [];
      prebuild_sb = [];
      flags = 0;
      active = false;
    }
    ∷ record {
      mountpoint = sb2;
      overlayroot = codes "/ov";
      baas_path = [];
      prebuild_sb = [];
      flags = 4;
      active = true;
    }
    ∷ []

track_reuses : (mountinfo_track sb1 meta1 table).1 ≡ true
unfolding mountinfo_track text_eq
track_reuses = refl

view-mountinfo_track_example :
    view (mountinfo_track sb1 meta1 table).0 sb2
    ≡ (if text_eq sb1 sb2 then some (stored meta1) else view table sb2)
view-mountinfo_track_example = view-mountinfo_track sb1 sb2 meta1 table (omega arith) track_reuses

readers-mountinfo_track_example : mountinfo_flags_for sb1 (mountinfo_track sb1 meta1 table).0 ≡ 16
readers-mountinfo_track_example =
    (readers-mountinfo_track sb1 meta1 table (omega arith) track_reuses).1

table-Distinct : Distinct table
unfolding view
table-Distinct = (λ e. cc, (λ e. refl, tt))

view-mountinfo_untrack_example :
    view (mountinfo_untrack sb2 table) sb2 ≡ (if text_eq sb2 sb2 then none else view table sb2)
view-mountinfo_untrack_example = view-mountinfo_untrack sb2 sb2 table table-Distinct

-- What /proc/self/mountinfo says in the tests: only the second sandbox is mounted.
abbrev only_sb2 : Text → Bool
only_sb2 = text_eq sb2

one_line : concat (live only_sb2 table) ≡ codes "/ws/sb2 (-)" ++ 10 ∷ []
unfolding live text_eq describe_line
one_line = refl

reachable-IsValid_example : IsValid (run (track sb1 meta1 ∷ untrack sb1 ∷ track sb2 meta1 ∷ []) [])
reachable-IsValid_example =
    reachable-IsValid (track sb1 meta1 ∷ untrack sb1 ∷ track sb2 meta1 ∷ []) (omega arith)

-- One line of /proc/self/mountinfo.
abbrev proc_line : Text
proc_line = codes "36 35 98:0 /mnt1 /ws/sb2 rw,noatime master:1" ++ 10 ∷ []

mountinfo_is_mounted_lem_example :
    (mountinfo_is_mounted (some proc_line) sb2 ≡ true) ↔ Listed sb2 (fgets_all 4096 proc_line)
mountinfo_is_mounted_lem_example = mountinfo_is_mounted_lem proc_line sb2

finds_sb2 : mountinfo_is_mounted (some proc_line) sb2 ≡ true
unfolding mountinfo_is_mounted fgets_all split text_eq
finds_sb2 = refl
