-- ===== src/Client/Prepare.antt =====
-- prepare_mount_request of mbroker/client/main.c. Who calls is given by Ids: `build_access` is the group of that
-- name, where it exists and the user is in it.
use aiomb.Prelude.{
  ℕ, ◌+◌, [], ◌∷◌, ◌++◌, Bool, true, false, ◌&&◌, not, Option, none, some, Text, ◌==◌, leb, length,
  if◌then◌else◌,
}
use aiomb.CString.{fit, first, has_byte}
use aiomb.Broker.{Cmd, create, destroy, sandbox_list, recover, Request}
use aiomb.Client.{CmdContext, is_set, Parsed}

pub record Ids : Type 0 where
  pub uid : ℕ
  pub gid : ℕ
  pub build_access : Option ℕ

abbrev pub cmd_number : Cmd → ℕ
cmd_number create = 1
cmd_number destroy = 2
cmd_number sandbox_list = 5
cmd_number recover = 6
cmd_number _ = 4

abbrev pub flags_of : CmdContext → ℕ
flags_of c =
    (if c.enable_promote then 4 else 0)
    + (if c.enable_chown_owner then 8 else 0)
    + (if c.enable_override_uid then 16 else 0)

abbrev pub gid_of : Bool → Ids → ℕ
gid_of false ids = ids.gid
gid_of true ids = elim ids.build_access [ none ↦ ids.gid | some g ↦ g ]

abbrev pub short_enough : Text → Option Text
short_enough s = if leb 2048 (length s) then none else some s

unfoldable pub overlayroot_field : Option Text → Option Text
overlayroot_field none = some []
overlayroot_field (some o) = if not (first o == b'/') then none else short_enough o

-- A relative path without a colon is below the working directory.
unfoldable pub lowerdir_field : Text → Option Text → Option Text
lowerdir_field cwd none = some []
lowerdir_field cwd (some l) =
    if not (has_byte b':' l) && not (first l == b'/')
    then short_enough (cwd ++ b'/' ∷ l)
    else short_enough l

abbrev pub or_empty : Option Text → Text
or_empty none = []
or_empty (some s) = s

abbrev pub filled : Ids → Parsed → Text → Text → Request
filled ids p overlayroot lowerdir =
    let c = p.context in
    record {
      cmd = cmd_number p.cmd;
      flags = flags_of c;
      uid = ids.uid;
      gid = gid_of c.enable_override_uid ids;
      sandboxname = fit 2048 p.sandboxname;
      lowerdir = lowerdir;
      overlayroot = overlayroot;
      baas_path = if is_set c.prebuild_sb then fit 512 c.baas_path else [];
      prebuild_sb = fit 256 (or_empty c.prebuild_sb);
    }

-- prepare_mount_request: `none` for -1
unfoldable pub prepare_mount_request : Text → Ids → Parsed → Option Request
prepare_mount_request cwd ids p = elim (overlayroot_field p.context.custom_overlayroot) [
  | none ↦ none
  | some o ↦ elim (lowerdir_field cwd p.context.custom_lowerdir) [
    | none ↦ none
    | some l ↦ some (filled ids p o l)
  ]
]
