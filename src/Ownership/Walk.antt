-- ===== src/Ownership/Walk.antt =====
-- The counts of the walk of mbroker/daemon/ownership.c.
use aiomb.Prelude.{ℕ, [], ◌∷◌, Text, length, ◌≡◌, arith, length-append}
use aiomb.FileTree.{Node, file, dir, Entries, nil, entry, child_path}
use aiomb.Ownership.{Cycle, chown_one, saw_dir, saw_file, chown_tree_fchownat, chown_entries}

-- `changed` counts the paths that were given to the owner.
abbrev pub Counts : Cycle → Type 0
Counts c = c.changed ≡ length c.owned

chown_one-Counts : (err : ℕ) (path : Text) (c : Cycle) → Counts c → Counts (chown_one err path c)
unfolding chown_one
chown_one-Counts err path c h = ground (arith, length-append c.owned (path ∷ []))

module _ (errors : Text → ℕ) where
  mutual
    unfolding chown_tree_fchownat chown_entries

    tree-Counts :
        (path : Text) (n : Node) (c : Cycle)
        → Counts c
        → Counts (chown_tree_fchownat errors path n c)
    tree-Counts path (file size) c h = h
    tree-Counts path (dir readable es) c h =
        let own = chown_one-Counts (errors path) path c h in
        let below = entries-Counts path es (saw_dir (chown_one (errors path) path c)) own in
        ground arith

    entries-Counts :
        (path : Text) (es : Entries) (c : Cycle)
        → Counts c
        → Counts (chown_entries errors path es c)
    entries-Counts path nil c h = h
    entries-Counts path (entry name n es) c h =
        let child = child_path path name in
        let own = chown_one (errors child) child c in
        let own_h = chown_one-Counts (errors child) child c h in
        let below = chown_tree_fchownat errors child n own in
        let below_h = tree-Counts child n own own_h in
        let a = entries-Counts path es c h in
        let b = entries-Counts path es own own_h in
        let d = entries-Counts path es below below_h in
        let e = entries-Counts path es (saw_file own) own_h in ground arith

  -- Whatever errors the changes of owner give, the walk's count of changes is the number of paths that
  -- it gave to the owner.
  pub chown_tree_fchownat-Counts :
      (path : Text) (n : Node) (c : Cycle) → Counts c → Counts (chown_tree_fchownat errors path n c)
  chown_tree_fchownat-Counts path n c h = tree-Counts path n c h
