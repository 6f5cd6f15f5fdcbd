-- ===== src/Removal.antt =====
-- remove_dir_recursive of mbroker/daemon/umount_ops.c, by which a destroyed sandbox's
-- directories are deleted. `errors` says for each path which errno `unlink` or `rmdir` gives, or 0, where the
-- directory is empty.
mod Left
mod Clear
mod Inside
mod Examples
use aiomb.Prelude.{
  ℕ, List, [], ◌∷◌, ◌++◌, Bool, true, false, ◌||◌, ◌&&◌, not, Option, none, some, Text, ◌==◌,
  is_empty, if◌then◌else◌,
}
use aiomb.CString.{fit}
use aiomb.FileTree.{Node, file, dir, Entries, nil, entry, child_path, too_long, is_dot}

-- What is left at the path, whether 0 is returned, and the paths removed, in the order of their removal.
pub record Removal : Type 0 where
  pub left : Option Node
  pub ok : Bool
  pub removed : List Text

-- The same of the entries of a directory.
pub record Emptied : Type 0 where
  pub entries : Entries
  pub ok : Bool
  pub removed : List Text

-- The call succeeds, or fails with ENOENT.
abbrev pub is_gone : ℕ → Bool
is_gone err = err == 0 || err == 2

-- rmdir fails with ENOTEMPTY on anything else.
unfoldable pub only_dots : Entries → Bool
only_dots nil = true
only_dots (entry name n es) = is_dot name && only_dots es

abbrev pub keep : Text → Option Node → Entries → Entries
keep name none es = es
keep name (some n) es = entry name n es

-- The call that takes away what is at `path`, a file or an empty directory.
unfoldable pub take_away : (Text → ℕ) → Text → Node → List Text → Bool → Removal
take_away errors path n removed ok =
    let removed' = if errors path == 0 then removed ++ path ∷ [] else removed in
    if is_gone (errors path)
    then record { left = none; ok = ok; removed = removed' }
    else record { left = some n; ok = false; removed = removed }

-- `rmdir` after the loop over the entries.
unfoldable pub remove_emptied : (Text → ℕ) → Text → Emptied → Removal
remove_emptied errors path r =
    if only_dots r.entries
    then take_away errors path (dir true r.entries) r.removed r.ok
    else record { left = some (dir true r.entries); ok = false; removed = r.removed }

-- The branch of the loop that `lstat` selects: what is no directory is unlinked.
abbrev pub unlink_file : (Text → ℕ) → Text → Node → Removal → Removal
unlink_file errors path (file size) below = take_away errors path (file size) [] true
unlink_file errors path (dir readable es) below = below

module _ (errors : Text → ℕ) where
  unfoldable mutual
    -- remove_dir_recursive on a path that exists
    pub remove_node : Text → Node → Removal
    remove_node path (file size) = record { left = some (file size); ok = false; removed = [] }
    remove_node path (dir readable es) =
        let emptied = remove_emptied errors path (remove_entries path es) in
        if readable
        then emptied
        else record { left = some (dir readable es); ok = false; removed = [] }

    pub remove_entries : Text → Entries → Emptied
    remove_entries path nil = record { entries = nil; ok = true; removed = [] }
    remove_entries path (entry name n es) =
        let child = child_path path name in
        let here = unlink_file errors child n (remove_node child n) in
        let rest = remove_entries path es in
        if is_dot name
        then record rest { entries = entry name n rest.entries }
        else if too_long child
        then record rest { entries = entry name n rest.entries; ok = false }
        else record {
          entries = keep name here.left rest.entries;
          ok = here.ok && rest.ok;
          removed = here.removed ++ rest.removed;
        }

  -- With nothing there, `opendir` fails with ENOENT.
  unfoldable pub remove_dir_recursive : Text → Option Node → Removal
  remove_dir_recursive path none = record { left = none; ok = true; removed = [] }
  remove_dir_recursive path (some n) = remove_node path n
