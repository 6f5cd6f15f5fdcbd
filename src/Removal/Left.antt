-- ===== src/Removal/Left.antt =====
-- The result of remove_dir_recursive and what it leaves.
use aiomb.Prelude.{
  ℕ, List, [], Bool, true, false, ◌&&◌, Option, none, some, Text, ◌≡◌, refl, sym, ◌∙◌, Bool-cases,
  inl, inr,
}
use aiomb.FileTree.{Node, file, dir, Entries, nil, entry, child_path, too_long, is_dot}
use aiomb.Removal.{
  Removal, Emptied, is_gone, only_dots, keep, take_away, remove_emptied, remove_node, unlink_file,
  remove_entries, remove_dir_recursive,
}

abbrev pub is_absent : Option Node → Bool
is_absent none = true
is_absent (some n) = false

only_dots-keep :
    (name : Text) (l : Option Node) (es : Entries)
    → is_dot name ≡ false
    → only_dots (keep name l es) ≡ (is_absent l && only_dots es)
unfolding only_dots
only_dots-keep name none es e = refl
only_dots-keep name (some n) es e = rw e refl

module _ (errors : Text → ℕ) where
  take_away-absent :
      (path : Text) (n : Node) (removed : List Text) (ok : Bool)
      → ok ≡ true
      → is_absent (take_away errors path n removed ok).left
        ≡ (take_away errors path n removed ok).ok
  unfolding take_away
  take_away-absent path n removed ok e = elim (Bool-cases (is_gone (errors path))) [
    | inl g ↦ rw (g, e) refl
    | inr g ↦ rw g refl
  ]

  emptied-absent :
      (path : Text) (r : Emptied)
      → only_dots r.entries ≡ r.ok
      → is_absent (remove_emptied errors path r).left ≡ (remove_emptied errors path r).ok
  unfolding remove_emptied
  emptied-absent path r e = elim (Bool-cases (only_dots r.entries)) [
    | inl d ↦ rw d (take_away-absent path (dir true r.entries) r.removed r.ok (sym e ∙ d))
    | inr d ↦ rw d refl
  ]

  child-absent :
      (path : Text) (n : Node) (below : Removal)
      → is_absent below.left ≡ below.ok
      → is_absent (unlink_file errors path n below).left ≡ (unlink_file errors path n below).ok
  child-absent path (file size) below e = take_away-absent path (file size) [] true refl
  child-absent path (dir readable es) below e = e

  mutual
    unfolding remove_node remove_entries only_dots

    node-absent :
        (path : Text) (n : Node)
        → is_absent (remove_node errors path n).left ≡ (remove_node errors path n).ok
    node-absent path (file size) = refl
    node-absent path (dir false es) = refl
    node-absent path (dir true es) =
        emptied-absent path (remove_entries errors path es) (entries-absent path es)

    pub entries-absent :
        (path : Text) (es : Entries)
        → only_dots (remove_entries errors path es).entries ≡ (remove_entries errors path es).ok
    entries-absent path nil = refl
    entries-absent path (entry name n es) =
        let child = child_path path name in
        let here = child-absent child n (remove_node errors child n) (node-absent child n) in
        let rest = entries-absent path es in
        let left = (unlink_file errors child n (remove_node errors child n)).left in
        let entries = (remove_entries errors path es).entries in
        elim (Bool-cases (is_dot name)) [
          | inl e ↦ rw (e, e) rest
          | inr e ↦ elim (Bool-cases (too_long child)) [
            | inl e' ↦ rw (e, e', e) refl
            | inr e' ↦ rw (e, e', only_dots-keep name left entries e, here, rest) refl
          ]
        ]

  pub left-remove_dir_recursive :
      (path : Text) (found : Option Node)
      → is_absent (remove_dir_recursive errors path found).left
        ≡ (remove_dir_recursive errors path found).ok
  unfolding remove_dir_recursive
  left-remove_dir_recursive path none = refl
  left-remove_dir_recursive path (some n) = node-absent path n
