-- ===== src/PostMount.antt =====
-- The chown after a mount, of mbroker/daemon/post_mount.c: chown_dir_recursive and what calls it. `found` is what
-- lstat shows at a path, `glob` the matches of a pattern, or `none` for its failure, and `errors` the errno that
-- lchown gives for a path, or 0. What is kept is the list of the paths that were given to the user.
pub mod Below
mod Same
mod Async
mod Examples
use aiomb.Prelude.{
  ℕ, List, [], ◌∷◌, ◌++◌, Bool, true, false, not, ◌||◌, ◌&&◌, Option, none, some, Text, ◌==◌,
  is_empty, leb, length, take, map, if◌then◌else◌,
}
use aiomb.CString.{fit}
use aiomb.FileTree.{Node, file, dir, Entries, nil, entry, child_path, too_long, is_dot}
use aiomb.DaemonConfig.{DaemonConfig}

-- Nothing, with ENOENT; a failure of lstat with another errno; or a tree.
pub data Found : Type 0 where
  absent inaccessible : Found
  present : Node → Found

unfoldable pub has_wildcard : Text → Bool
has_wildcard [] = false
has_wildcard (c ∷ s) = (c == b'*' || (c == b'?' || c == b'[')) || has_wildcard s

module _ (errors : Text → ℕ) where
  abbrev pub lchown : Text → List Text → List Text
  lchown path owned = if errors path == 0 then owned ++ path ∷ [] else owned

  -- chown_dir_recursive on a path that lstat finds, and whether it returns 0. A failed lchown is only logged.
  unfoldable mutual
    pub chown_dir_recursive : Text → Node → List Text → List Text × Bool
    chown_dir_recursive path (file size) owned = (lchown path owned, true)
    chown_dir_recursive path (dir readable es) owned =
        let own = lchown path owned in
        let below = chown_entries path es own in if readable then below else (own, false)

    pub chown_entries : Text → Entries → List Text → List Text × Bool
    chown_entries path nil owned = (owned, true)
    chown_entries path (entry name n es) owned =
        let child = child_path path name in
        let skip = chown_entries path es owned in
        let here = chown_dir_recursive child n owned in
        let rest = chown_entries path es here.0 in
        if is_dot name
        then skip
        else if too_long child
        then (skip.0, false)
        else (rest.0, here.1 && rest.1)

  -- chown_dir_recursive
  abbrev pub chown_found : Text → Found → List Text → List Text × Bool
  chown_found path absent owned = (owned, true)
  chown_found path inaccessible owned = (owned, false)
  chown_found path (present n) owned = chown_dir_recursive path n owned

  module _ (found : Text → Found) (glob : Text → Option (List Text)) where
    -- The matches of a wildcard.
    unfoldable pub chown_matches : List Text → List Text → List Text
    chown_matches [] owned = owned
    chown_matches (m ∷ ms) owned = chown_matches ms (chown_found m (found m) owned).0

    abbrev pub chown_globbed : Option (List Text) → List Text → List Text
    chown_globbed none owned = owned
    chown_globbed (some ms) owned = chown_matches ms owned

    unfoldable pub post_mount_chown_one : Text → Text → List Text → List Text
    unfolding chown_matches has_wildcard
    post_mount_chown_one sandboxname rel owned =
        let target = child_path sandboxname rel in
        if too_long target
        then owned
        else if has_wildcard rel
        then chown_globbed (glob target) owned
        else (chown_found target (found target) owned).0

    unfoldable pub post_mount_chown_thread : Text → List Text → List Text → List Text
    post_mount_chown_thread sandboxname [] owned = owned
    post_mount_chown_thread sandboxname (rel ∷ dirs) owned =
        post_mount_chown_thread sandboxname dirs (post_mount_chown_one sandboxname rel owned)

-- struct post_mount_chown_req, less the user
pub record ChownReq : Type 0 where
  pub sandboxname : Text
  pub dirs : List Text

-- The request that start_post_mount_chown_async hands to its thread, if it starts one.
unfoldable pub start_post_mount_chown_async : Text → DaemonConfig → Option ChownReq
start_post_mount_chown_async sandboxname cfg =
    if is_empty sandboxname || is_empty cfg.post_mount_chown_dirs
    then none
    else some (record {
      sandboxname = fit 2048 sandboxname;
      dirs = map (fit 512) (take 32 cfg.post_mount_chown_dirs);
    })
