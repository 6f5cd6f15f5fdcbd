-- ===== src/Removal/Clear.antt =====
-- When remove_dir_recursive returns 0, read off a listing of the tree.
use aiomb.Prelude.{
  ℕ, List, [], ◌∷◌, ◌++◌, Bool, true, false, ◌&&◌, not, some, Text, ◌≡◌, refl, ap, sym, ◌∙◌, arith,
  Bool-cases, inl, inr, if◌then◌else◌,
}
use aiomb.FileTree.{Node, file, dir, Entries, nil, entry, child_path, too_long, is_dot}
use aiomb.Removal.{
  Emptied, is_gone, only_dots, take_away, remove_emptied, remove_node, unlink_file, remove_entries,
  remove_dir_recursive,
}
use aiomb.Removal.Left.{is_absent, entries-absent, left-remove_dir_recursive}

abbrev pub opens : Node → Bool
opens (file size) = true
opens (dir readable es) = readable

-- Every path below a directory, with whether it can be looked into.
unfoldable mutual
  pub listing : Text → Entries → List (Text × Bool)
  listing path nil = []
  listing path (entry name n es) =
      let child = child_path path name in
      let here = (child, opens n) ∷ below child n in
      let rest = listing path es in if is_dot name then rest else here ++ rest

  pub below : Text → Node → List (Text × Bool)
  below path (file size) = []
  below path (dir readable es) = listing path es

-- Nothing about a path keeps it from being removed.
abbrev pub clear : (Text → ℕ) → Text × Bool → Bool
clear errors (path, looks) = (not (too_long path) && looks) && is_gone (errors path)

unfoldable pub all_clear : (Text → ℕ) → List (Text × Bool) → Bool
all_clear errors [] = true
all_clear errors (p ∷ ps) = clear errors p && all_clear errors ps

and_swap : (a b c d : Bool) → (((a && b) && c) && d) ≡ ((a && c) && (b && d))
and_swap a b c d = ground arith

module _ (errors : Text → ℕ) where
  all_clear-append :
      (ps qs : List (Text × Bool))
      → all_clear errors (ps ++ qs) ≡ (all_clear errors ps && all_clear errors qs)
  unfolding all_clear
  all_clear-append [] qs = refl
  all_clear-append (p ∷ ps) qs = ground (arith, all_clear-append ps qs)

  ok-take_away :
      (path : Text) (n : Node) (removed : List Text) (ok : Bool)
      → (take_away errors path n removed ok).ok ≡ (ok && is_gone (errors path))
  unfolding take_away
  ok-take_away path n removed ok = ground arith

  ok-emptied :
      (path : Text) (r : Emptied)
      → only_dots r.entries ≡ r.ok
      → (remove_emptied errors path r).ok ≡ (r.ok && is_gone (errors path))
  unfolding remove_emptied
  ok-emptied path r e = elim (Bool-cases (only_dots r.entries)) [
    | inl d ↦ rw d (ok-take_away path (dir true r.entries) r.removed r.ok)
    | inr d ↦ rw (d, sym e ∙ d) refl
  ]

  mutual
    unfolding remove_node remove_entries listing below all_clear

    ok-child :
        (path : Text) (n : Node)
        → (unlink_file errors path n (remove_node errors path n)).ok
          ≡ ((opens n && all_clear errors (below path n)) && is_gone (errors path))
    ok-child path (file size) = ok-take_away path (file size) [] true
    ok-child path (dir false es) = refl
    ok-child path (dir true es) =
        ok-emptied path (remove_entries errors path es) (entries-absent errors path es)
        ∙ ap (λ b. b && is_gone (errors path)) (ok-entries path es)

    ok-entries :
        (path : Text) (es : Entries)
        → (remove_entries errors path es).ok ≡ all_clear errors (listing path es)
    ok-entries path nil = refl
    ok-entries path (entry name n es) =
        let child = child_path path name in
        let here = ok-child child n in
        let rest = ok-entries path es in
        let split = all_clear-append (below child n) (listing path es) in
        elim (Bool-cases (is_dot name)) [
          | inl e ↦ rw e rest
          | inr e ↦ elim (Bool-cases (too_long child)) [
            | inl e' ↦ rw (e, e') refl
            | inr e' ↦
                rw (e, e', here, rest, split)
                  (and_swap (opens n) (all_clear errors (below child n)) (is_gone (errors child))
                    (all_clear errors (listing path es)))
          ]
        ]

-- On a directory, remove_dir_recursive returns 0 and leaves nothing in exactly one case: the directory and all
-- those below it can be opened, no path below it is too long, and no removal fails but with ENOENT.
pub remove_dir_recursive_lem :
    (errors : Text → ℕ) (path : Text) (readable : Bool) (es : Entries)
    → ((remove_dir_recursive errors path (some (dir readable es))).ok
        ≡ ((readable && all_clear errors (listing path es)) && is_gone (errors path)))
      × (is_absent (remove_dir_recursive errors path (some (dir readable es))).left
          ≡ ((readable && all_clear errors (listing path es)) && is_gone (errors path)))
unfolding remove_dir_recursive listing
remove_dir_recursive_lem errors path readable es =
    let ok = ok-child errors path (dir readable es) in
    (ok, left-remove_dir_recursive errors path (some (dir readable es)) ∙ ok)
