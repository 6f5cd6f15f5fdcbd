-- ===== src/Ownership/Examples.antt =====
-- Trees, and runs of mbroker/daemon/ownership.c on them.
use aiomb.Prelude.{
  All, ℕ, some, List, [], ◌∷◌, ◌++◌, Bool, true, ◌||◌, Text, codes, text_eq, is_empty, not, ◌≡◌,
  refl,
}
use aiomb.FileTree.{file, dir, Entries, nil, entry, is_dot}
use aiomb.Ownership.{no_cycle, chown_tree_fchownat, chown_owner_thread}
use aiomb.Ownership.Whole.{Walked, paths_of, file_count, is_whole, chown_tree_fchownat-Walked}
use aiomb.Ownership.Shallow.{shallow_entries, entry_dirs, files_seen-chown_owner_thread}

abbrev always : ℕ → Bool
always n = true

abbrev foreign : Text → Bool
foreign p = true

abbrev pub no_errors : Text → ℕ
no_errors p = 0

-- EIO
abbrev all_fail : Text → ℕ
all_fail p = 5

-- "a/x", "a/y" and "z"
abbrev pub tree : Entries
tree =
    entry (codes "a") (dir true (entry (codes "x") (file 7) (entry (codes "y") (file 8) nil)))
      (entry (codes "z") (file 9) nil)

-- Whether a list of paths has any.
abbrev pub some_path : List Text → Bool
some_path ps = not (is_empty ps)

pub some_path-append : (a b : List Text) → some_path (a ++ b) ≡ (some_path a || some_path b)
some_path-append [] b = refl
some_path-append (p ∷ a) b = refl

chown_tree_fchownat-Walked_example :
    Walked some_path no_cycle
      (file_count (dir true tree))
      (paths_of (codes "/m") (dir true tree))
      (chown_tree_fchownat no_errors (codes "/m") (dir true tree) no_cycle)
unfolding is_whole is_dot text_eq
chown_tree_fchownat-Walked_example =
    chown_tree_fchownat-Walked no_errors (λ p. refl) some_path refl some_path-append (codes "/m")
      (dir true tree) no_cycle refl refl

-- The paths of the directories of the tree.
abbrev of_dir : Text → Bool
of_dir p = text_eq p (codes "/m") || text_eq p (codes "/m/a")

files_seen-chown_owner_thread_example :
    let r = chown_owner_thread always foreign no_errors (some 1000) (codes "/m") (dir true tree) in
    All (λ p. of_dir p ≡ true) r.0 × All (λ p. of_dir p ≡ true) r.1.owned × (r.1.files_seen ≡ 0)
unfolding shallow_entries is_dot text_eq entry_dirs
files_seen-chown_owner_thread_example =
    files_seen-chown_owner_thread (λ p. of_dir p ≡ true) always foreign no_errors (some 1000)
      (codes "/m") true tree (λ k. refl) refl refl (refl, tt)
