-- ===== src/Mount/Lower.antt =====
-- handle_custom_lowerdir of mbroker/daemon/mount_ops.c.
use aiomb.Prelude.{
  ℕ, zero, suc, ◌+◌, List, [], ◌∷◌, ◌++◌, Bool, true, false, not, Option, none, some, Text, ◌==◌,
  leb, length, is_empty, if◌then◌else◌,
}
use aiomb.CString.{fit, tokens, first}
use aiomb.Mount.{
  reported, World, Env, set_errno, eio, einval, enametoolong, mount_at, detach, clower,
}

-- Where the walk over the components stands: the mounts made so far are those of the indices below
-- `nfs_idx`. `none` for the resolved string is the jump to err_cleanup.
pub record Walk : Type 0 where
  pub world : World
  pub resolved : Option Text
  pub nfs_idx : ℕ

abbrev pub fails : ℕ → World → ℕ → Walk
fails e w k = record { world = set_errno e w; resolved = none; nfs_idx = k }

-- One component more at the end of the resolved string of 8192 bytes. The string is empty only before the
-- first component, as `first` says.
unfoldable pub add_component : Text → Text → Option Text
add_component resolved part =
    let joined = if is_empty resolved then part else resolved ++ b':' ∷ part in
    if leb 8192 (length joined) then none else some joined

abbrev pub walk_on : World → ℕ → Option Text → Walk
walk_on w k none = fails enametoolong w k
walk_on w k (some joined) = record { world = w; resolved = some joined; nfs_idx = k }

unfoldable pub added : Text → Text → World → ℕ → Walk
added resolved part w k = walk_on w k (add_component resolved part)

-- The mount of `server:path`, for the address that the server resolved to.
unfoldable pub try_mount : Env → Text → Text → Text → World → Option Text → World × Bool
try_mount env server path target w none = (set_errno eio w, false)
try_mount env server path target w (some ip) =
    if env.mounts (fit 2048 (server ++ b':' ∷ path)) target
    then (mount_at target w, true)
    else (set_errno (env.error target) w, false)

abbrev pub server_for : Option Text → Text → Text
server_for none host = host
server_for (some s) host = fit 256 s

-- The mount of one NFS component at its target, from the host of the request or the server that the model
-- chose; false with errno set for a failure.
unfoldable pub mount_nfs : Env → Text → Text → Text → World → World × Bool
mount_nfs env host path target w =
    let server = server_for env.chosen_server host in
    if reported target w
    then (w, true)
    else if leb 256 (length host)
    then (set_errno einval w, false)
    else try_mount env server path target w (env.resolves server)

unfoldable pub local_component : Env → Text → World → Text → ℕ → Walk
local_component env token w r k =
    if env.accessible token then added r token w k else fails (env.error token) w k

unfoldable pub nfs_component : Env → (ℕ → Text) → Text → Text → World → Text → ℕ → Walk
nfs_component env target host path w r k =
    let (w', done) = mount_nfs env host path (target k) w in
    if not (first path == b'/')
    then fails einval w k
    else if leb 2048 (length (target k))
    then fails enametoolong w k
    else if not (env.makes_dir (target k))
    then fails (env.error (target k)) w k
    else if done
    then added r (target k) w' (k + 1)
    else record { world = w'; resolved = none; nfs_idx = k }

-- The loop over the tokens.
unfoldable pub walk_components : Env → (ℕ → Text) → List Text → World → Text → ℕ → Walk
walk_components env target [] w r k = record { world = w; resolved = some r; nfs_idx = k }
walk_components env target (token ∷ []) w r k =
    if first token == b'/' then local_component env token w r k else fails einval w k
walk_components env target (token ∷ path ∷ more) w r k =
    let here = local_component env token w r k in
    let mounted = nfs_component env target token path w r k in
    let after_local =
      λ (r' : Text). walk_components env target (path ∷ more) here.world r' here.nfs_idx in
    let after_nfs =
      λ (r' : Text). walk_components env target more mounted.world r' mounted.nfs_idx in
    if first token == b'/'
    then elim here.resolved [ none ↦ here | some r' ↦ after_local r' ]
    else elim mounted.resolved [ none ↦ mounted | some r' ↦ after_nfs r' ]

-- The loop of err_cleanup.
unfoldable pub undo_mounts : Env → (ℕ → Text) → ℕ → World → World
undo_mounts env target zero w = w
undo_mounts env target (suc n) w =
    let w' = undo_mounts env target n w in
    if reported (target n) w' then detach env (target n) w' else w'

-- The resolved string with the number of NFS components, or `none` for -1.
abbrev pub Lower : Type 0
Lower = World × Option (Text × ℕ)

unfoldable pub lower_of : Env → (ℕ → Text) → Walk → Lower
lower_of env target s =
    let undone = undo_mounts env target s.nfs_idx in
    elim s.resolved [
      | none ↦ (undone s.world, none)
      | some r ↦
          if is_empty r
          then (undone (set_errno einval s.world), none)
          else (s.world, some (r, s.nfs_idx))
    ]

unfoldable pub handle_custom_lowerdir : Env → Text → Text → Text → World → Lower
handle_custom_lowerdir env overlayroot sandboxname custom_lowerdir w =
    lower_of env (clower overlayroot sandboxname) (
      walk_components env (clower overlayroot sandboxname) (tokens b':' (fit 2048 custom_lowerdir))
        w [] 0)
