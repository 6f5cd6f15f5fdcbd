-- ===== src/FileTree.antt =====
-- The directory trees that mbroker/daemon/ walks, as `lstat`, `opendir` and `readdir` show them. A tree
-- does not change during a walk: the races that the code tolerates are not modelled.
use aiomb.Prelude.{ℕ, ◌++◌, ◌∷◌, Bool, ◌||◌, Text, codes, length, leb, text_eq}

-- A file or symbolic link with its size, or a directory: whether it can be opened, and its entries.
mutual
  pub data Node : Type 0 where
    file : ℕ → Node
    dir : Bool → Entries → Node

  pub data Entries : Type 0 where
    nil : Entries
    entry : Text → Node → Entries → Entries

-- snprintf(child, 4096, "%s/%s", path, name), where it fits
abbrev pub child_path : Text → Text → Text
child_path path name = path ++ b'/' ∷ name

abbrev pub too_long : Text → Bool
too_long path = leb 4096 (length path)

unfoldable pub is_dot : Text → Bool
is_dot name = text_eq name (codes ".") || text_eq name (codes "..")

-- The names that promote.c passes over.
unfoldable pub is_skipped : Text → Bool
unfolding is_dot
is_skipped name = is_dot name || text_eq name (codes ".git")
