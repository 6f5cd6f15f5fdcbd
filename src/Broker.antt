-- ===== src/Broker.antt =====
-- mbroker/daemon/broker.c: one request of a client, as handle_client serves it. The answers of the system
-- are the fields of Mount.Env and of Service.
mod Guards
pub mod Run
mod Valid
mod Sequence
mod Examples
use aiomb.Prelude.{
  ℕ, List, [], ◌∷◌, ◌++◌, Bool, true, false, ◌||◌, ◌&&◌, not, Option, none, some, Text, codes, ◌==◌,
  is_empty, if◌then◌else◌,
}
use aiomb.CString.{fit}
use aiomb.MountInfo.{mountinfo_baas_info_for, mountinfo_describe_all}
use aiomb.Exports.{SystemStatus, run_exportfs_refresh}
use aiomb.DaemonConfig.{DaemonConfig}
use aiomb.Mount.{reported, World, Env, Job, promote, chown_owner, einval, eperm, enotsup}
use aiomb.Mount.Create.{Create, has_flag, mount_sandbox}
use aiomb.Mount.Destroy.{umount_sandbox}
use aiomb.Recover.{Entry, restore_mounts}

-- The commands, and any other number.
pub data Cmd : Type 0 where
  create destroy refresh sandbox_list recover : Cmd
  unknown : ℕ → Cmd

unfoldable pub cmd_of : ℕ → Cmd
cmd_of n =
    if n == 1
    then create
    else if n == 2
    then destroy
    else if n == 4
    then refresh
    else if n == 5
    then sandbox_list
    else if n == 6
    then recover
    else unknown n

abbrev pub cmd_name : Cmd → Text
cmd_name create = codes "create"
cmd_name destroy = codes "destroy"
cmd_name refresh = codes "refresh"
cmd_name sandbox_list = codes "list"
cmd_name recover = codes "recover"
cmd_name (unknown n) = codes "unknown"

-- struct mount_request
pub record Request : Type 0 where
  pub cmd : ℕ
  pub flags : ℕ
  pub uid : ℕ
  pub gid : ℕ
  pub sandboxname : Text
  pub lowerdir : Text
  pub overlayroot : Text
  pub baas_path : Text
  pub prebuild_sb : Text

-- struct mount_reply; `status` is the size of the negative errno, or 0.
pub record Reply : Type 0 where
  pub status : ℕ
  pub details : Text
  pub baas_path : Text
  pub prebuild_sb : Text

-- What else a request meets: whether threads start (0, or an errno), the names of errors, and the
-- records that a recovery reads.
pub record Service : Type 0 where
  pub promote_start : ℕ
  pub chown_start : ℕ
  pub exportfs : SystemStatus
  pub strerror : ℕ → Text
  pub conf_path : Text
  pub open_error : ℕ
  pub entries : Option (List Entry)

-- REPLY_DETAILS_MAX
abbrev pub reply_details_max : ℕ
reply_details_max = 16384

abbrev pub details : Text → Text
details s = fit reply_details_max s

abbrev pub refused : Text → Reply
refused why = record { status = einval; details = details why; baas_path = []; prebuild_sb = [] }

abbrev pub plain : ℕ → Text → Reply
plain status text = record { status = status; details = text; baas_path = []; prebuild_sb = [] }

-- The NULs that end the strings of an untrusted client.
abbrev pub terminated : Request → Request
terminated r = record r {
  sandboxname = fit 2048 r.sandboxname;
  lowerdir = fit 2048 r.lowerdir;
  overlayroot = fit 2048 r.overlayroot;
  baas_path = fit 512 r.baas_path;
  prebuild_sb = fit 256 r.prebuild_sb;
}

abbrev pub add_job : Job → World → World
add_job j w = record w { jobs = w.jobs ++ j ∷ [] }

-- daemon_promote_mountpoint_async and daemon_chown_owner_mountpoint_async: an empty path is EINVAL.
abbrev pub start_job : ℕ → Job → Text → World → World × ℕ
start_job result j mp w =
    if is_empty mp then (w, einval) else if result == 0 then (add_job j w, 0) else (w, result)

abbrev pub is_create : Cmd → Bool
is_create create = true
is_create _ = false

-- The two guards on the flags, in their order.
abbrev pub gated : Bool → Bool → World → World × Reply → World × Reply
gated true owned w served =
    (w, refused (codes "--promote is supported only with create and a sandbox path"))
gated false true w served =
    (w, refused (codes "--chown-owner is supported only with create and a sandbox path"))
gated false false w served = served

module _ (sys : Service) (env : Env) (cfg : DaemonConfig) where
  unfoldable pub after_create : Request → World → ℕ → World × Reply
  after_create r w status =
      let promoted =
        if has_flag r.flags 4
        then (start_job sys.promote_start (promote r.sandboxname) r.sandboxname w).0
        else w in
      let (owned, crc) =
        start_job sys.chown_start (chown_owner r.sandboxname) r.sandboxname promoted in
      let why =
        codes "Failed to start ownership-fix task for '"
        ++ r.sandboxname
        ++ codes "': "
        ++ sys.strerror crc in
      if not (status == 0)
      then (w, plain status [])
      else if not (has_flag r.flags 8)
      then (promoted, plain 0 [])
      else (owned, plain crc (if crc == 0 then [] else details why))

  unfoldable pub do_create : Request → World → World × Reply
  do_create r w =
      let c : Create = record {
        sandboxname = r.sandboxname;
        uid = r.uid;
        gid = r.gid;
        flags = r.flags;
        lowerdir = r.lowerdir;
        overlayroot = r.overlayroot;
        baas_path = r.baas_path;
        prebuild_sb = r.prebuild_sb;
      } in
      let (w', status) = mount_sandbox env cfg c w in after_create r w' status

  abbrev pub destroyed : Option (Text × Text) → World × ℕ → World × Reply
  destroyed none (w, status) = (w, plain status [])
  destroyed (some (baas, prebuild)) (w, status) =
      if status == 0
      then (w, record { status = 0; details = []; baas_path = baas; prebuild_sb = prebuild })
      else (w, plain status [])

  -- The saved names are looked up before the entry goes.
  unfoldable pub do_destroy : Request → World → World × Reply
  do_destroy r w =
      destroyed (mountinfo_baas_info_for r.sandboxname 512 256 w.table)
        (umount_sandbox env cfg r.sandboxname r.flags r.uid w)

  abbrev pub listed : Option Text → World → World × Reply
  listed none w = (w, plain 1 [])
  listed (some text) w = (w, plain 0 text)

  unfoldable pub do_list : World → World × Reply
  do_list w =
      let (table, text) = mountinfo_describe_all (λ p. reported p w) reply_details_max w.table in
      listed text (record w { table = table })

  unfoldable pub do_recover : World → World × Reply
  do_recover w =
      let (r, status) =
        restore_mounts sys.strerror env cfg reply_details_max sys.conf_path sys.open_error
          sys.entries w in
      (r.world, plain status r.report.buf)

  -- refresh_exports returns -1, which is minus EPERM, where exportfs fails.
  unfoldable pub dispatch : Cmd → Request → World → World × Reply
  dispatch create r w = do_create r w
  dispatch destroy r w = do_destroy r w
  dispatch refresh r w = (w, plain (if run_exportfs_refresh sys.exportfs then 0 else 1) [])
  dispatch sandbox_list r w = do_list w
  dispatch recover r w = do_recover w
  dispatch (unknown n) r w = (w, plain einval [])

  abbrev pub failure_text : Cmd → Request → ℕ → Text
  failure_text cmd r status =
      cmd_name cmd ++ codes " failed at '" ++ r.sandboxname ++ codes "': " ++ sys.strerror status

  unfoldable pub why : Cmd → Request → ℕ → Text
  why create r status =
      if status == enotsup
      then codes "Upper/work dirs are on an overlayfs; check overlayroot setting"
      else failure_text create r status
  why destroy r status =
      if status == eperm
      then codes "Destroy denied: only mountpoint owner can destroy '" ++ r.sandboxname ++ codes "'"
      else failure_text destroy r status
  why cmd r status = failure_text cmd r status

  -- The text of a failure that has none yet.
  unfoldable pub explained : Cmd → Request → Reply → Reply
  explained cmd r rep =
      if rep.status == 0 || not (is_empty rep.details)
      then rep
      else record rep { details = details (why cmd r rep.status) }

  -- handle_client on a whole request
  unfoldable pub handle_client : Request → World → World × Reply
  handle_client raw w =
      let r = terminated raw in
      let cmd = cmd_of r.cmd in
      let elsewhere = not (is_create cmd) || is_empty r.sandboxname in
      let (w', rep) = dispatch cmd r w in
      gated (has_flag r.flags 4 && elsewhere) (has_flag r.flags 8 && elsewhere) w
        (w', explained cmd r rep)
