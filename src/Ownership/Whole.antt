-- ===== src/Ownership/Whole.antt =====
-- The walk of mbroker/daemon/ownership.c when no change of owner fails.
use aiomb.Prelude.{
  ℕ, ◌+◌, List, [], ◌∷◌, ◌++◌, Bool, true, false, ◌||◌, ◌&&◌, not, Text, ◌≡◌, refl, sym, arith,
}
use aiomb.FileTree.{Node, file, dir, Entries, nil, entry, child_path, too_long, is_dot}
use aiomb.Ownership.{
  Cycle, chown_one, saw_dir, saw_file, is_dir, chown_tree_fchownat, chown_entries,
}

-- The paths of a tree, in the order of the walk.
unfoldable mutual
  pub paths_of : Text → Node → List Text
  paths_of path (file size) = path ∷ []
  paths_of path (dir readable es) = path ∷ entry_paths path es

  pub entry_paths : Text → Entries → List Text
  entry_paths path nil = []
  entry_paths path (entry name n es) = paths_of (child_path path name) n ++ entry_paths path es

unfoldable mutual
  pub file_count : Node → ℕ
  file_count (file size) = 1
  file_count (dir readable es) = entry_count es

  entry_count : Entries → ℕ
  entry_count nil = 0
  entry_count (entry name n es) = file_count n + entry_count es

-- Every directory is readable, every path fits, and the dot entries are left out.
unfoldable mutual
  pub is_whole : Text → Node → Bool
  is_whole path (file size) = true
  is_whole path (dir readable es) = let below = entries_whole path es in readable && below

  pub entries_whole : Text → Entries → Bool
  entries_whole path nil = true
  entries_whole path (entry name n es) =
      let here = is_whole (child_path path name) n in
      let rest = entries_whole path es in
      not (is_dot name) && (not (too_long (child_path path name)) && (here && rest))

-- What a walk adds to the counts and to the paths that a test `f` asks for.
abbrev pub Walked : (List Text → Bool) → Cycle → ℕ → List Text → Cycle → Type 0
Walked f c n ps r =
    (r.files_seen ≡ c.files_seen + n)
    × (r.race_skips ≡ c.race_skips)
    × (r.errors ≡ c.errors)
    × (f r.owned ≡ (f c.owned || f ps))

module _ (errors : Text → ℕ) (no_errors : (p : Text) → errors p ≡ 0) (f : List Text → Bool)
    (f-nil : f [] ≡ false) (f-append : (a b : List Text) → f (a ++ b) ≡ (f a || f b)) where
  chown_one-Walked :
      (path : Text) (c : Cycle) → Walked f c 0 (path ∷ []) (chown_one (errors path) path c)
  unfolding chown_one
  chown_one-Walked path c = ground (arith, no_errors path, f-append c.owned (path ∷ []))

  or_false : (b : Bool) → (b || false) ≡ b
  or_false true = refl
  or_false false = refl

  Walked-trans :
      (c d r : Cycle) (m n k : ℕ) (ps qs us : List Text)
      → Walked f c m ps d
      → Walked f d n qs r
      → m + n ≡ k
      → (f ps || f qs) ≡ f us
      → Walked f c k us r
  Walked-trans c d r m n k ps qs us h h' e e' = ground arith

  mutual
    unfolding chown_tree_fchownat chown_entries is_whole entries_whole paths_of entry_paths
        file_count entry_count

    tree-Walked :
        (path : Text) (n : Node) (c : Cycle)
        → is_dir n ≡ true
        → is_whole path n ≡ true
        → Walked f c (file_count n) (paths_of path n) (chown_tree_fchownat errors path n c)
    tree-Walked path (file size) c d w = ground arith
    tree-Walked path (dir false es) c d w = ground arith
    tree-Walked path (dir true es) c isdir w =
        let own = chown_one-Walked path c in
        let d = saw_dir (chown_one (errors path) path c) in
        Walked-trans c d (chown_entries errors path es d) 0 (entry_count es) (entry_count es)
          (path ∷ []) (entry_paths path es) (path ∷ entry_paths path es) own
          (entries-Walked path es d w) (omega arith)
          (sym (f-append (path ∷ []) (entry_paths path es)))

    entries-Walked :
        (path : Text) (es : Entries) (c : Cycle)
        → entries_whole path es ≡ true
        → Walked f c (entry_count es) (entry_paths path es) (chown_entries errors path es c)
    entries-Walked path nil c w = ground (arith, or_false (f c.owned))
    entries-Walked path (entry name (file size) es) c w =
        let child = child_path path name in
        let own = chown_one (errors child) child c in
        let h = chown_one-Walked child c in
        let rest = entries-Walked path es (saw_file own) in
        ground (arith, no_errors child, f-append (child ∷ []) (entry_paths path es))
    entries-Walked path (entry name (dir readable below) es) c w =
        let child = child_path path name in
        let own = chown_one (errors child) child c in
        let h = chown_one-Walked child c in
        let walked = chown_tree_fchownat errors child (dir readable below) own in
        let h' = tree-Walked child (dir readable below) own refl in
        let rest = entries-Walked path es walked in
        ground (
          arith,
          no_errors child,
          f-append (child ∷ []) (entry_paths child below),
          f-append (child ∷ entry_paths child below) (entry_paths path es),
        )

  -- When no change of owner fails, the walk of a directory reaches every file and every directory
  -- below it: it counts each file once, and the paths that it gives to the owner are those of the tree,
  -- whatever test `f` for members one takes. This supposes that all can be read and all paths fit.
  pub chown_tree_fchownat-Walked :
      (path : Text) (n : Node) (c : Cycle)
      → is_dir n ≡ true
      → is_whole path n ≡ true
      → Walked f c (file_count n) (paths_of path n) (chown_tree_fchownat errors path n c)
  chown_tree_fchownat-Walked path n c d w = tree-Walked path n c d w
