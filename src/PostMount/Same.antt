-- ===== src/PostMount/Same.antt =====
-- The chown after a mount against the walk of mbroker/daemon/ownership.c.
use aiomb.Prelude.{ℕ, List, [], ◌∷◌, ◌++◌, Bool, true, false, ◌||◌, Text, ◌≡◌, sym, ◌∙◌, arith}
use aiomb.FileTree.{Node, file, dir, Entries, nil, entry, child_path}
use aiomb.Ownership.{no_cycle, is_dir, chown_tree_fchownat}
use aiomb.Ownership.Whole.{
  paths_of, entry_paths, is_whole, entries_whole, chown_tree_fchownat-Walked,
}
use aiomb.PostMount.{lchown, chown_dir_recursive, chown_entries}

module _ (errors : Text → ℕ) (no_errors : (p : Text) → errors p ≡ 0) (f : List Text → Bool)
    (f-nil : f [] ≡ false) (f-append : (a b : List Text) → f (a ++ b) ≡ (f a || f b)) where
  mutual
    unfolding chown_dir_recursive chown_entries is_whole entries_whole paths_of entry_paths

    chown_dir_recursive-paths_of :
        (path : Text) (n : Node) (owned : List Text)
        → is_whole path n ≡ true
        → (f (chown_dir_recursive errors path n owned).0 ≡ (f owned || f (paths_of path n)))
          × ((chown_dir_recursive errors path n owned).1 ≡ true)
    chown_dir_recursive-paths_of path (file size) owned w =
        ground (arith, no_errors path, f-append owned (path ∷ []))
    chown_dir_recursive-paths_of path (dir false es) owned w = ground arith
    chown_dir_recursive-paths_of path (dir true es) owned w =
        let own = lchown errors path owned in
        let below = chown_entries-paths_of path es own w in
        ground (
          arith,
          no_errors path,
          f-append owned (path ∷ []),
          f-append (path ∷ []) (entry_paths path es),
          below,
        )

    chown_entries-paths_of :
        (path : Text) (es : Entries) (owned : List Text)
        → entries_whole path es ≡ true
        → (f (chown_entries errors path es owned).0 ≡ (f owned || f (entry_paths path es)))
          × ((chown_entries errors path es owned).1 ≡ true)
    chown_entries-paths_of path nil owned w = ground (arith, f-nil)
    chown_entries-paths_of path (entry name n es) owned w =
        let child = child_path path name in
        let here = chown_dir_recursive-paths_of child n owned in
        let rest = chown_entries-paths_of path es (chown_dir_recursive errors child n owned).0 in
        ground (arith, f-append (paths_of child n) (entry_paths path es))

  -- Where no change of owner fails, all directories can be read and all paths fit, chown_dir_recursive on a directory
  -- returns 0 and gives to the user the paths that chown_tree_fchownat gives, the walk by which ownership.c does one
  -- directory of its queue, whatever test `f` for members one takes. How chown_owner_thread makes that queue is left out.
  pub chown_dir_recursive_lem :
      (path : Text) (n : Node)
      → is_dir n ≡ true
      → is_whole path n ≡ true
      → (f (chown_dir_recursive errors path n []).0
          ≡ f (chown_tree_fchownat errors path n no_cycle).owned)
        × ((chown_dir_recursive errors path n []).1 ≡ true)
  chown_dir_recursive_lem path n d w =
      let (seen, skips, errs, owned) =
        chown_tree_fchownat-Walked errors no_errors f f-nil f-append path n no_cycle d w in
      let (mine, ok) = chown_dir_recursive-paths_of path n [] w in (mine ∙ sym owned, ok)
