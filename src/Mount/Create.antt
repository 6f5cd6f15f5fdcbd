-- ===== src/Mount/Create.antt =====
-- mount_sandbox of mbroker/daemon/mount_ops.c, with save_mount_record. The locks and the entry into the mount
-- namespace are not modelled.
use aiomb.Prelude.{
  ℕ, ◌/◌, ◌%◌, [], ◌∷◌, ◌++◌, Bool, true, false, ◌||◌, not, Option, none, some, Text, codes, ◌==◌,
  leb, ltb, length, is_empty, if◌then◌else◌,
}
use aiomb.CString.{fit, first}
use aiomb.MountInfo.{Meta, mountinfo_track, mountinfo_untrack}
use aiomb.Exports.{ensure_overlay_export}
use aiomb.DaemonConfig.{DaemonConfig}
use aiomb.Mount.{
  reported, World, Env, prepare_whiteouts, chown_dirs, Ctx, set_errno, einval, enotsup, put,
  mount_at, detach, decimal, setup_overlay_dirs, sandbox_dir, cleanup_custom_nfs_mounts,
}
use aiomb.Mount.Lower.{Lower, handle_custom_lowerdir}

-- What a create request asks for.
pub record Create : Type 0 where
  pub sandboxname : Text
  pub uid : ℕ
  pub gid : ℕ
  pub flags : ℕ
  pub lowerdir : Text
  pub overlayroot : Text
  pub baas_path : Text
  pub prebuild_sb : Text

-- The test of one bit of the flags.
abbrev pub has_flag : ℕ → ℕ → Bool
has_flag flags bit = flags / bit % 2 == 1

unfoldable pub json_escape : Text → Text
json_escape [] = []
json_escape (c ∷ s) =
    (if c == b'"'
      then codes "\\\""
      else if c == 92
      then codes "\\\\"
      else if c == 10
      then codes "\\n"
      else if c == 13
      then codes "\\r"
      else if c == 9
      then codes "\\t"
      else c ∷ [])
    ++ json_escape s

unfoldable pub json_kv_str : Text → Text → Bool → Text
json_kv_str key val comma =
    codes "  \""
    ++ key
    ++ codes "\": \""
    ++ json_escape val
    ++ codes "\""
    ++ (if comma then codes "," else [])
    ++ 10 ∷ []

abbrev pub kv_if_set : Text → Text → Text
kv_if_set key val = if is_empty val then [] else json_kv_str key val true

abbrev pub kv_int : Text → ℕ → Text
kv_int key n = codes "  \"" ++ key ++ codes "\": " ++ decimal n ++ codes ",\n"

-- save_mount_record casts a uid and a gid to int; here they are as they are, which is the same below 2^31.
unfoldable pub mount_record : Ctx → Create → Text → Text → Text
mount_record ctx c effective created =
    codes "{\n"
    ++ json_kv_str (codes "sandboxname") c.sandboxname true
    ++ json_kv_str (codes "overlayroot") ctx.overlayroot true
    ++ json_kv_str (codes "lowerdir") effective true
    ++ json_kv_str (codes "upperdir") ctx.upperdir true
    ++ json_kv_str (codes "workdir") ctx.workdir true
    ++ kv_if_set (codes "custom_lowerdir") c.lowerdir
    ++ kv_if_set (codes "custom_overlayroot") c.overlayroot
    ++ kv_if_set (codes "baas_path") c.baas_path
    ++ kv_if_set (codes "prebuild_sb") c.prebuild_sb
    ++ kv_int (codes "uid") c.uid
    ++ kv_int (codes "gid") c.gid
    ++ kv_int (codes "flags") c.flags
    ++ json_kv_str (codes "created") created false
    ++ codes "}\n"

abbrev pub record_path : Text → Text → Text
record_path overlayroot sandboxname = sandbox_dir overlayroot sandboxname ++ codes "/mountinfo.json"

unfoldable pub save_mount_record : Env → Ctx → Create → Text → World → World
save_mount_record env ctx c effective w =
    let path = record_path ctx.overlayroot c.sandboxname in
    if leb 4096 (length path) || not env.opens_record
    then w
    else record w { records = put path (some (mount_record ctx c effective env.created)) w.records }

-- The two sources of the lower directories.
unfoldable pub effective_lowerdir : Env → Text → Create → World → Lower
effective_lowerdir env overlayroot c w =
    if is_empty c.prebuild_sb
    then handle_custom_lowerdir env overlayroot c.sandboxname c.lowerdir w
    else if not (first c.lowerdir == b'/')
    then (set_errno einval w, none)
    else if not (env.accessible c.lowerdir)
    then (set_errno (env.error c.lowerdir) w, none)
    else (w, some (fit 8192 c.lowerdir, 0))

abbrev pub other_device : Env → Ctx → Bool
other_device env ctx = elim (env.device ctx.upperdir) [
  | none ↦ false
  | some u ↦ elim (env.device ctx.workdir) [ none ↦ false | some v ↦ not (u == v) ]
]

unfoldable pub overlay_opts : Ctx → Create → Text → Text
overlay_opts ctx c effective =
    codes "lowerdir="
    ++ effective
    ++ codes ",upperdir="
    ++ ctx.upperdir
    ++ codes ",workdir="
    ++ ctx.workdir
    ++ codes ",redirect_dir=on,index=on,nfs_export=on"
    ++ (if has_flag c.flags 16
        then codes ",override_creds=" ++ decimal c.uid ++ b':' ∷ decimal c.gid
        else [])

-- What mount_sandbox tracks.
abbrev pub tracked_meta : Ctx → Create → Meta
tracked_meta ctx c = record {
  flags = c.flags;
  overlayroot = some ctx.overlayroot;
  baas_path = some c.baas_path;
  prebuild_sb = some c.prebuild_sb;
}

-- What mount_sandbox does to the table, the exports file, the records and the jobs once the overlay is
-- mounted; the Boolean is false on the jump to err.
unfoldable pub after_mount : Env → DaemonConfig → Ctx → Create → Text → World → World × Bool
after_mount env cfg ctx c effective w =
    let tracked = (mountinfo_track c.sandboxname (tracked_meta ctx c) w.table).0 in
    let exported = ensure_overlay_export env.ensure w.exports c.sandboxname in
    let w' = record w { table = tracked; exports = exported.file } in
    let jobs =
      if is_empty cfg.post_mount_chown_dirs
      then w.jobs
      else w.jobs ++ chown_dirs c.sandboxname ∷ [] in
    if exported.ok
    then (save_mount_record env ctx c effective (record w' { jobs = jobs }), true)
    else (
      detach env c.sandboxname (record w' { table = mountinfo_untrack c.sandboxname tracked }),
      false,
    )

-- The part between the resolved lower directories and the mount of the overlay. Calls whose failure is not looked at
-- leave `errno` as it was here.
unfoldable pub mount_overlay : Env → DaemonConfig → Ctx → Create → Text → World → World × Bool
mount_overlay env cfg ctx c effective w =
    let jobs =
      if is_empty cfg.post_mount_whiteout_dirs
      then w.jobs
      else w.jobs ++ prepare_whiteouts effective ctx.upperdir ∷ [] in
    let w' = record w { jobs = jobs } in
    if env.fails_overlay || other_device env ctx
    then (w, false)
    else if env.on_overlay ctx.upperdir || env.on_overlay ctx.workdir
    then (set_errno enotsup w, false)
    else if leb 8192 (length (overlay_opts ctx c effective))
    then (w', false)
    else if env.mounts (overlay_opts ctx c effective) c.sandboxname
    then after_mount env cfg ctx c effective (mount_at c.sandboxname w')
    else (set_errno (env.error c.sandboxname) w', false)

-- The label err, for a failure with `count` NFS components mounted: -errno
abbrev pub err : Env → Text → Create → ℕ → World → World × ℕ
err env overlayroot c count w =
    let w' = if ltb 0 count then cleanup_custom_nfs_mounts env overlayroot c.sandboxname w else w in
    (w', w'.errno)

unfoldable pub finish : Env → DaemonConfig → Ctx → Create → Lower → World × ℕ
finish env cfg ctx c (w, none) = err env ctx.overlayroot c 0 w
finish env cfg ctx c (w, some (effective, count)) =
    let (w', done) = mount_overlay env cfg ctx c effective w in
    if done then (w', 0) else err env ctx.overlayroot c count w'

abbrev pub overlayroot_for : DaemonConfig → Create → Text
overlayroot_for cfg c =
    if is_empty c.overlayroot then fit 2048 cfg.overlayroot else fit 2048 c.overlayroot

-- The part after setup_overlay_dirs, whose failure sets no errno.
unfoldable pub with_dirs : Env → DaemonConfig → Create → World → Text → Option Ctx → World × ℕ
with_dirs env cfg c w root none = (w, w.errno)
with_dirs env cfg c w root (some ctx) = finish env cfg ctx c (effective_lowerdir env root c w)

-- mount_sandbox: the world after it, and the size of the negative errno that it returns, 0 for a success
unfoldable pub mount_sandbox : Env → DaemonConfig → Create → World → World × ℕ
mount_sandbox env cfg c w =
    let root = overlayroot_for cfg c in
    let rest = with_dirs env cfg c w root (setup_overlay_dirs root c.sandboxname) in
    if is_empty root || is_empty c.lowerdir
    then (w, einval)
    else if reported c.sandboxname w
    then (w, 0)
    else if not (env.accessible c.sandboxname)
    then (set_errno (env.error c.sandboxname) w, env.error c.sandboxname)
    else rest
