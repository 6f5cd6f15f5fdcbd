-- ===== src/Mount.antt =====
-- mbroker/daemon/mount_ops.c and umount_ops.c: what mounting and destroying a sandbox does to the mounts,
-- the mount table, the exports file and the mount records. At most one mount is on a path, as the
-- code checks before each of its mounts; on a path that /proc/self/mountinfo escapes the check never finds one, and a
-- second mount there is not told from the first; the system's answers are the fields of Env.
pub mod Lower
pub mod Create
pub mod Destroy
mod Undo
mod Rollback
pub mod Denied
mod Failures
mod Outcome
mod Sandbox
pub mod Valid
mod Escapes
pub mod Examples
use aiomb.Prelude.{
  ℕ, zero, suc, ◌+◌, ◌-◌, ◌*◌, ◌/◌, ◌%◌, List, [], ◌∷◌, ◌++◌, Bool, true, false, ◌||◌, ◌&&◌, not,
  Option, none, some, Text, codes, ◌==◌, leb, ltb, length, text_eq, is_empty, if◌then◌else◌,
}
use aiomb.CString.{fit, basename}
use aiomb.MountInfo.{Table}
use aiomb.Exports.{EnsureEnv, RemoveEnv}

-- What runs after a call in a thread of its own, or removes a tree.
pub data Job : Type 0 where
  prepare_whiteouts : Text → Text → Job
  chown_dirs : Text → Job
  promote : Text → Job
  chown_owner : Text → Job
  remove_tree : Text → Job

-- `mounted` says where something is mounted, `exports` the exports file, `records` the mountinfo.json files.
pub record World : Type 0 where
  pub mounted : Text → Bool
  pub table : Table
  pub exports : Option Text
  pub records : Text → Option Text
  pub jobs : List Job
  pub errno : ℕ

-- What the system answers. `error` is the errno of a call that fails on a path.
pub record Env : Type 0 where
  pub accessible : Text → Bool
  pub makes_dir : Text → Bool
  pub resolves : Text → Option Text
  pub chosen_server : Option Text
  pub mounts : Text → Text → Bool
  pub unmounts : Text → Bool
  pub lazily_unmounts : Text → Bool
  pub fails_overlay : Bool
  pub device : Text → Option ℕ
  pub on_overlay : Text → Bool
  pub owner : Text → Option ℕ
  pub ensure : EnsureEnv
  pub remove : RemoveEnv
  pub opens_record : Bool
  pub created : Text
  pub gc_suffix : Text
  pub renames : Text → ℕ
  pub error : Text → ℕ

abbrev pub set_errno : ℕ → World → World
set_errno e w = record w { errno = e }

-- EIO, EINVAL, EPERM, ENAMETOOLONG and ENOTSUP
abbrev pub eio : ℕ
eio = 5

abbrev pub einval : ℕ
einval = 22

abbrev pub eperm : ℕ
eperm = 1

abbrev pub enametoolong : ℕ
enametoolong = 36

abbrev pub enotsup : ℕ
enotsup = 95

-- A path with a new value.
unfoldable pub put {ℓ} : {A : Type ℓ} → Text → A → (Text → A) → Text → A
put p a f q = if text_eq p q then a else f q

unfoldable pub mount_at : Text → World → World
mount_at p w = record w { mounted = put p true w.mounted }

-- The bytes that /proc/self/mountinfo writes as an escape of four.
abbrev pub is_escaped : ℕ → Bool
is_escaped c = (c == b' ' || c == 9) || (c == 10 || c == 92)

unfoldable pub is_seen : Text → Bool
is_seen [] = true
is_seen (c ∷ s) = not (is_escaped c) && is_seen s

-- mountinfo_is_mounted: a path with one of these bytes is never found, as no escape is undone.
abbrev pub reported : Text → World → Bool
reported p w = w.mounted p && is_seen p

-- umount2 with MNT_DETACH
unfoldable pub detach : Env → Text → World → World
detach env p w =
    if env.lazily_unmounts p
    then record w { mounted = put p false w.mounted }
    else set_errno (env.error p) w

-- The decimal digits of an int that is not negative.
unfoldable pub digits : ℕ → ℕ → Text
digits zero n = []
digits (suc fuel) n =
    let front = digits fuel (n / 10) in
    let last = 48 + n % 10 in if ltb n 10 then last ∷ [] else front ++ last ∷ []

abbrev pub decimal : ℕ → Text
decimal n = digits 10 n

-- struct mount_ctx
pub record Ctx : Type 0 where
  pub overlayroot : Text
  pub upperdir : Text
  pub workdir : Text

abbrev pub sandbox_dir : Text → Text → Text
sandbox_dir overlayroot sandboxname = overlayroot ++ b'/' ∷ basename (fit 2048 sandboxname)

-- setup_overlay_dirs: `none` for -1
unfoldable pub setup_overlay_dirs : Text → Text → Option Ctx
setup_overlay_dirs overlayroot sandboxname =
    let upper = sandbox_dir overlayroot sandboxname ++ codes "/upper" in
    let work = sandbox_dir overlayroot sandboxname ++ codes "/work" in
    if leb 2048 (length upper) || leb 2048 (length work)
    then none
    else some (record { overlayroot = overlayroot; upperdir = upper; workdir = work })

-- <overlayroot>/<sandbox_basename>-clower-<i>
unfoldable pub clower : Text → Text → ℕ → Text
clower overlayroot sandboxname i =
    sandbox_dir overlayroot sandboxname ++ codes "-clower-" ++ decimal i

-- MAX_CUSTOM_LOWERDIR_COMPONENTS
abbrev pub max_custom_lowerdir_components : ℕ
max_custom_lowerdir_components = 16

-- The loop of cleanup_custom_nfs_mounts, from index `i` with `fuel` passes left; targets are cut to 4096.
unfoldable pub cleanup_from : Env → (ℕ → Text) → ℕ → ℕ → World → World
cleanup_from env target zero i w = w
cleanup_from env target (suc fuel) i w =
    let rest = cleanup_from env target fuel (i + 1) (detach env (target i) w) in
    if reported (target i) w then rest else w

unfoldable pub cleanup_custom_nfs_mounts : Env → Text → Text → World → World
cleanup_custom_nfs_mounts env overlayroot sandboxname w =
    cleanup_from env (λ i. fit 4096 (clower overlayroot sandboxname i))
      max_custom_lowerdir_components 0 w
