-- ===== src/Mount/Examples.antt =====
-- A small system, and runs of mbroker/daemon/mount_ops.c and umount_ops.c on it.
use aiomb.Prelude.{[], ◌∷◌, ◌++◌, true, false, none, some, codes, length, text_eq, arith, ◌≡◌, refl}
use aiomb.CString.{fit}
use aiomb.MountInfo.{mountinfo_track, mountinfo_overlayroot_for}
use aiomb.MountInfo.Bounds.{IsValid}
use aiomb.MountInfo.Invariant.{mountinfo_track-IsValid}
use aiomb.MountInfo.Slots.{view}
use aiomb.Exports.{EnsureEnv, RemoveEnv, fallback, exited, remove_overlay_export}
use aiomb.DaemonConfig.{zeroed}
use aiomb.CString.{fit}
use aiomb.Mount.{World, Env, Ctx}
use aiomb.Mount.Create.{Create, json_escape, mount_sandbox, tracked_meta}
use aiomb.Mount.Destroy.{umount_sandbox, umount_owned, unmount_overlay, tracked_or}
use aiomb.Mount.Escapes.{read_string, IsWritable, read_string-json_escape}
use aiomb.Mount.Sandbox.{Outcome, mount_sandbox-Outcome}
use aiomb.Mount.Denied.{umount_sandbox_done}

abbrev pub ensure : EnsureEnv
ensure = record {
  fsid = fallback (codes "1-2");
  reread = true;
  writable = true;
  printed = true;
  exportfs = exited 0;
}

abbrev pub remove : RemoveEnv
remove = record { tmp_opened = true; flushed = true; renamed = true; exportfs = exited 0 }

-- All calls succeed; each path is on a device of its own length.
abbrev pub good : Env
good = record {
  accessible = λ p. true;
  makes_dir = λ p. true;
  resolves = λ h. some (codes "10.0.0.1");
  chosen_server = none;
  mounts = λ s t. true;
  unmounts = λ p. true;
  lazily_unmounts = λ p. true;
  fails_overlay = false;
  device = λ p. some (length p);
  on_overlay = λ p. false;
  owner = λ p. some 1000;
  ensure = ensure;
  remove = remove;
  opens_record = true;
  created = codes "2026";
  gc_suffix = codes ".gc";
  renames = λ p. 0;
  error = λ p. 13;
}

abbrev pub start : World
start = record {
  mounted = λ p. false;
  table = [];
  exports = some [];
  records = λ p. none;
  jobs = [];
  errno = 0;
}

abbrev pub request : Create
request = record {
  sandboxname = codes "/home/u/sb";
  uid = 1000;
  gid = 1000;
  flags = 0;
  lowerdir = codes "/l";
  overlayroot = codes "/ov";
  baas_path = [];
  prebuild_sb = codes "pb";
}

abbrev pub dirs : Ctx
dirs = record {
  overlayroot = codes "/ov";
  upperdir = codes "/ov/sb/upper";
  workdir = codes "/ov/sb/work";
}

abbrev nothing_tracked : IsValid []
nothing_tracked = record { size = omega arith; distinct = tt; fits = tt }

-- A world with the sandbox of the request in its table.
abbrev pub tracked : World
tracked = record start {
  table = (mountinfo_track request.sandboxname (tracked_meta dirs request) []).0;
}

umount_sandbox_done_example :
    (view
        (umount_sandbox good zeroed (codes "/home/u/sb") 0 1000 tracked).0.table
        (codes "/home/u/sb")
      ≡ none)
    × ((umount_sandbox good zeroed (codes "/home/u/sb") 0 1000 tracked).0.exports
        ≡ (remove_overlay_export remove (some []) (codes "/home/u/sb")).file)
unfolding umount_sandbox text_eq umount_owned unmount_overlay mountinfo_overlayroot_for tracked_or
    fit mountinfo_track
umount_sandbox_done_example =
    umount_sandbox_done good zeroed (codes "/home/u/sb") 0 1000 tracked (codes "/home/u/sb")
      (mountinfo_track-IsValid request.sandboxname (tracked_meta dirs request) [] (omega arith)
        nothing_tracked).distinct
      (omega arith) refl

mount_sandbox-Outcome_example :
    Outcome good zeroed request start (mount_sandbox good zeroed request start)
unfolding mountinfo_track view
mount_sandbox-Outcome_example =
    mount_sandbox-Outcome good zeroed request start
      (record { valid = nothing_tracked; fits = omega arith; absent = refl; room = λ ctx. refl })

-- A quote, a backslash and a line feed, with the end of a line behind the field.
read_string-json_escape_example :
    read_string false (json_escape (34 ∷ 92 ∷ 10 ∷ []) ++ 34 ∷ 44 ∷ [])
    ≡ some (34 ∷ 92 ∷ 10 ∷ [], 44 ∷ [])
unfolding IsWritable
read_string-json_escape_example =
    read_string-json_escape (34 ∷ 92 ∷ 10 ∷ []) (44 ∷ []) (refl, (refl, (refl, tt)))
