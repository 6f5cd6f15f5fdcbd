-- ===== src/Removal/Inside.antt =====
-- What remove_dir_recursive of mbroker/daemon/umount_ops.c removes is in the listing of the tree.
use aiomb.Prelude.{
  ℕ, List, [], ◌∷◌, ◌++◌, Bool, true, false, some, Text, ◌==◌, Bool-cases, inl, inr, All,
  All-append,
}
use aiomb.FileTree.{Node, file, dir, Entries, nil, entry, child_path, too_long, is_dot}
use aiomb.Removal.{
  Removal, Emptied, only_dots, take_away, remove_emptied, remove_node, unlink_file, remove_entries,
  remove_dir_recursive,
}
use aiomb.Removal.Clear.{listing, below}

module _ (errors : Text → ℕ) (P : Text → Type 0) where
  -- The property holds of every path of a listing.
  abbrev pub AllPaths : List (Text × Bool) → Type 0
  AllPaths ps = All (λ (x : Text × Bool). P x.0) ps

  take_away-All :
      (path : Text) (n : Node) (removed : List Text) (ok : Bool)
      → P path
      → All P removed
      → All P (take_away errors path n removed ok).removed
  unfolding take_away
  take_away-All path n removed ok h a = elim (Bool-cases (errors path == 0)) [
    | inl e ↦ rw e (All-append P removed (path ∷ []) a (h, tt))
    | inr e ↦ elim (Bool-cases (errors path == 2)) [ inl e' ↦ rw (e, e') a | inr e' ↦ rw (e, e') a ]
  ]

  emptied-All :
      (path : Text) (r : Emptied)
      → P path
      → All P r.removed
      → All P (remove_emptied errors path r).removed
  unfolding remove_emptied
  emptied-All path r h a = elim (Bool-cases (only_dots r.entries)) [
    | inl d ↦ rw d (take_away-All path (dir true r.entries) r.removed r.ok h a)
    | inr d ↦ rw d a
  ]

  unlink-All :
      (path : Text) (n : Node) (r : Removal)
      → P path
      → All P r.removed
      → All P (unlink_file errors path n r).removed
  unlink-All path (file size) r h a = take_away-All path (file size) [] true h tt
  unlink-All path (dir readable es) r h a = a

  AllPaths-split : (xs ys : List (Text × Bool)) → AllPaths (xs ++ ys) → AllPaths xs × AllPaths ys
  AllPaths-split [] ys a = (tt, a)
  AllPaths-split (x ∷ xs) ys a = let (l, r) = AllPaths-split xs ys a.1 in ((a.0, l), r)

  mutual
    unfolding remove_node remove_entries listing below

    node-All :
        (path : Text) (n : Node)
        → P path
        → AllPaths (below path n)
        → All P (remove_node errors path n).removed
    node-All path (file size) h a = tt
    node-All path (dir false es) h a = tt
    node-All path (dir true es) h a =
        emptied-All path (remove_entries errors path es) h (entries-All path es a)

    entries-All :
        (path : Text) (es : Entries)
        → AllPaths (listing path es)
        → All P (remove_entries errors path es).removed
    entries-All path nil a = tt
    entries-All path (entry name n es) a =
        let child = child_path path name in
        let removal = unlink_file errors child n (remove_node errors child n) in
        elim (Bool-cases (is_dot name)) [
          | inl e ↦ rw e (entries-All path es (rw e at a))
          | inr e ↦
              let (own, rest) : P child × AllPaths (below child n ++ listing path es) = rw e at a in
              let (l, r) = AllPaths-split (below child n) (listing path es) rest in
              let here =
                unlink-All child n (remove_node errors child n) own (node-All child n own l) in
              let later = entries-All path es r in
              elim (Bool-cases (too_long child)) [
                | inl e' ↦ rw (e, e') later
                | inr e' ↦
                    rw (e, e')
                      (All-append P removal.removed (remove_entries errors path es).removed here
                        later)
              ]
        ]

-- On a directory, remove_dir_recursive takes away no path but the directory's own and those of the listing of the
-- tree below it, which has no dot entry and nothing reached through one: what holds of all these paths holds of
-- every path that is removed.
pub removed-remove_dir_recursive :
    (errors : Text → ℕ) (P : Text → Type 0) (path : Text) (readable : Bool) (es : Entries)
    → P path
    → All (λ (x : Text × Bool). P x.0) (listing path es)
    → All P (remove_dir_recursive errors path (some (dir readable es))).removed
unfolding remove_dir_recursive listing
removed-remove_dir_recursive errors P path readable es h a =
    node-All errors P path (dir readable es) h a
