-- ===== src/Mount/Destroy.antt =====
-- umount_sandbox of mbroker/daemon/umount_ops.c. What is removed in a thread of its own, or at once where no
-- thread starts, is a job either way: where pthread_create fails, `errno` is taken not to be 0.
use aiomb.Prelude.{
  ℕ, [], ◌∷◌, ◌++◌, Bool, true, false, ◌&&◌, not, Option, none, some, Text, ◌==◌, leb, length,
  is_empty, if◌then◌else◌,
}
use aiomb.CString.{fit}
use aiomb.MountInfo.{mountinfo_overlayroot_for, mountinfo_untrack}
use aiomb.Exports.{remove_overlay_export}
use aiomb.DaemonConfig.{DaemonConfig}
use aiomb.Mount.{
  World, Env, remove_tree, set_errno, einval, eperm, put, setup_overlay_dirs,
  cleanup_custom_nfs_mounts,
}
use aiomb.Mount.Create.{has_flag, record_path}

-- umount2 with the flags of the request, and then with MNT_DETACH if they had not FLAG_LAZY. The errno of
-- the first call is kept.
unfoldable pub unmount_overlay : Env → Text → ℕ → World → World × Bool
unmount_overlay env mp flags w =
    let off = record w { mounted = put mp false w.mounted } in
    let failed = set_errno (env.error mp) w in
    if has_flag flags 1
    then (if env.lazily_unmounts mp then (off, true) else (failed, false))
    else if env.unmounts mp
    then (off, true)
    else if env.lazily_unmounts mp
    then (record failed { mounted = off.mounted }, true)
    else (failed, false)

-- A directory is renamed and the new name removed; where that fails it is removed in place, unless it
-- is not there. `env.renames` is the errno of `rename`, or 0.
unfoldable pub discard : Env → Text → World → World
discard env path w =
    let gc = path ++ env.gc_suffix in
    let job = λ (p : Text). record w { jobs = w.jobs ++ remove_tree p ∷ [] } in
    if leb 4096 (length gc)
    then job path
    else if env.renames path == 0
    then job gc
    else if env.renames path == 2
    then w
    else job path

unfoldable pub discard_dirs : Env → Text → Text → World → World
discard_dirs env root mp w = elim (setup_overlay_dirs root mp) [
  | none ↦ w
  | some ctx ↦ discard env ctx.upperdir (discard env ctx.workdir w)
]

unfoldable pub remove_record : Text → Text → World → World
remove_record root mp w =
    if leb 4096 (length (record_path root mp))
    then w
    else record w { records = put (record_path root mp) none w.records }

-- The part of umount_sandbox after the unmount.
unfoldable pub forget : Env → Text → Text → World → World
forget env root mp w =
    let w' = remove_record root mp (discard_dirs env root mp w) in
    cleanup_custom_nfs_mounts env root mp (record w' {
      table = mountinfo_untrack mp w.table;
      exports = (remove_overlay_export env.remove w.exports mp).file;
    })

unfoldable pub tracked_or : DaemonConfig → Option Text → Text
tracked_or cfg none = fit 2048 cfg.overlayroot
tracked_or cfg (some root) = if is_empty root then fit 2048 cfg.overlayroot else fit 2048 root

-- umount_sandbox on a mount point that `uid` owns
unfoldable pub umount_owned : Env → DaemonConfig → Text → ℕ → ℕ → World → ℕ → World × ℕ
umount_owned env cfg mp flags requester_uid w uid =
    let root = tracked_or cfg (mountinfo_overlayroot_for mp w.table) in
    let (w', done) = unmount_overlay env mp flags w in
    if not (requester_uid == 0) && not (uid == requester_uid)
    then (w, eperm)
    else if is_empty root
    then (w, einval)
    else if done
    then (forget env root mp w', 0)
    else (w', env.error mp)

-- umount_sandbox: the world after it, and the size of the negative errno that it returns, 0 for a success
unfoldable pub umount_sandbox : Env → DaemonConfig → Text → ℕ → ℕ → World → World × ℕ
umount_sandbox env cfg mp flags requester_uid w = elim (env.owner mp) [
  | none ↦ (set_errno (env.error mp) w, env.error mp)
  | some uid ↦ umount_owned env cfg mp flags requester_uid w uid
]
