-- ===== src/Removal/Examples.antt =====
-- The removal of an overlay's upper directory, of mbroker/daemon/umount_ops.c.
use aiomb.Prelude.{
  ◌||◌, Bool, ℕ, [], ◌∷◌, true, ◌&&◌, some, Text, codes, text_eq, All, ◌≡◌, refl, if◌then◌else◌,
}
use aiomb.FileTree.{file, dir, Entries, nil, entry, is_dot}
use aiomb.Removal.{is_gone, remove_dir_recursive, take_away, only_dots, remove_node, remove_emptied}
use aiomb.Removal.Left.{is_absent}
use aiomb.Removal.Clear.{listing, all_clear, remove_dir_recursive_lem}
use aiomb.Removal.Inside.{removed-remove_dir_recursive}

abbrev upper : Entries
upper = entry (codes ".") (dir true nil) (
    entry (codes "a") (file 3)
      (entry (codes "sub") (dir true (entry (codes "b") (file 0) nil)) nil))

-- unlink of /o/sub/b fails with EACCES.
abbrev errors : Text → ℕ
errors p = if text_eq p (codes "/o/sub/b") then 13 else 0

-- The rest is removed.
partly_removed :
    (remove_dir_recursive errors (codes "/o") (some (dir true upper))).removed ≡ codes "/o/a" ∷ []
unfolding remove_dir_recursive take_away only_dots is_dot text_eq remove_node remove_emptied
partly_removed = refl

all_removed :
    (remove_dir_recursive (λ p. 0) (codes "/o") (some (dir true upper))).removed
    ≡ codes "/o/a" ∷ codes "/o/sub/b" ∷ codes "/o/sub" ∷ codes "/o" ∷ []
unfolding remove_dir_recursive take_away only_dots is_dot text_eq remove_node remove_emptied
all_removed = refl

remove_dir_recursive_lem_example :
    ((remove_dir_recursive errors (codes "/o") (some (dir true upper))).ok
      ≡ ((true && all_clear errors (listing (codes "/o") upper)) && is_gone (errors (codes "/o"))))
    × (is_absent (remove_dir_recursive errors (codes "/o") (some (dir true upper))).left ≡ (
        (true && all_clear errors (listing (codes "/o") upper)) && is_gone (errors (codes "/o"))))
remove_dir_recursive_lem_example = remove_dir_recursive_lem errors (codes "/o") true upper

-- The paths of the directory, which are not those of its parent.
abbrev in_upper : Text → Bool
in_upper p =
    text_eq p (codes "/o")
    || (text_eq p (codes "/o/a") || (text_eq p (codes "/o/sub") || text_eq p (codes "/o/sub/b")))

removed-remove_dir_recursive_example :
    All
      (λ p. in_upper p ≡ true)
      (remove_dir_recursive errors (codes "/o") (some (dir true upper))).removed
unfolding listing is_dot text_eq
removed-remove_dir_recursive_example =
    removed-remove_dir_recursive errors (λ p. in_upper p ≡ true) (codes "/o") true upper refl
      (refl, (refl, (refl, tt)))
