-- ===== src/PostMount/Below.antt =====
-- The chown after a mount stays below the sandbox.
use mathlib.Core.List.{append_assoc}
use aiomb.Prelude.{
  ℕ, List, [], ◌∷◌, ◌++◌, true, false, Option, some, Text, ◌==◌, All, All-append, ◌≡◌, refl, ap,
  ◌∙◌, arith, Bool-cases, Option-cases, inl, inr,
}
use aiomb.CString.{has_byte}
use aiomb.FileTree.{Node, file, dir, Entries, nil, entry, child_path, too_long, is_dot}
use aiomb.PostMount.{
  Found, absent, inaccessible, present, has_wildcard, lchown, chown_dir_recursive, chown_entries,
  chown_found, chown_matches, chown_globbed, post_mount_chown_one, post_mount_chown_thread,
}

-- A path that continues that of the sandbox behind a slash.
abbrev pub Below : Text → Text → Type 0
Below sandboxname x = (s : Text) × (x ≡ child_path sandboxname s)

child-Below :
    (sandboxname x name : Text) → Below sandboxname x → Below sandboxname (child_path x name)
child-Below sandboxname x name (s, e) = (
  child_path s name,
  ap (λ y. child_path y name) e ∙ append_assoc sandboxname (b'/' ∷ s) (b'/' ∷ name),
)

module _ (errors : Text → ℕ) (sandboxname : Text) where
  lchown-Below :
      (path : Text) (owned : List Text)
      → Below sandboxname path
      → All (Below sandboxname) owned
      → All (Below sandboxname) (lchown errors path owned)
  lchown-Below path owned b a = elim (Bool-cases (errors path == 0)) [
    | inl e ↦ rw e (All-append (Below sandboxname) owned (path ∷ []) a (b, tt))
    | inr e ↦ rw e a
  ]

  mutual
    unfolding chown_dir_recursive chown_entries

    chown_dir_recursive-Below :
        (path : Text) (n : Node) (owned : List Text)
        → Below sandboxname path
        → All (Below sandboxname) owned
        → All (Below sandboxname) (chown_dir_recursive errors path n owned).0
    chown_dir_recursive-Below path (file size) owned b a = lchown-Below path owned b a
    chown_dir_recursive-Below path (dir true es) owned b a =
        chown_entries-Below path es (lchown errors path owned) b (lchown-Below path owned b a)
    chown_dir_recursive-Below path (dir false es) owned b a = lchown-Below path owned b a

    chown_entries-Below :
        (path : Text) (es : Entries) (owned : List Text)
        → Below sandboxname path
        → All (Below sandboxname) owned
        → All (Below sandboxname) (chown_entries errors path es owned).0
    chown_entries-Below path nil owned b a = a
    chown_entries-Below path (entry name n es) owned b a =
        let child = child_path path name in
        let skip = chown_entries-Below path es owned b a in
        let here =
          chown_dir_recursive-Below child n owned (child-Below sandboxname path name b) a in
        let rest =
          chown_entries-Below path es (chown_dir_recursive errors child n owned).0 b here in
        elim (Bool-cases (is_dot name)) [
          | inl e ↦ rw e skip
          | inr e ↦ elim (Bool-cases (too_long child)) [
            | inl e' ↦ rw (e, e') skip
            | inr e' ↦ rw (e, e') rest
          ]
        ]

  chown_found-Below :
      (path : Text) (f : Found) (owned : List Text)
      → Below sandboxname path
      → All (Below sandboxname) owned
      → All (Below sandboxname) (chown_found errors path f owned).0
  chown_found-Below path absent owned b a = a
  chown_found-Below path inaccessible owned b a = a
  chown_found-Below path (present n) owned b a = chown_dir_recursive-Below path n owned b a

  module _ (found : Text → Found) (glob : Text → Option (List Text))
      (literal : (pre pattern : Text) (ms : List Text)
        → has_wildcard pre ≡ false
        → has_byte b'\\' pre ≡ false
        → glob (pre ++ pattern) ≡ some ms
        → All (λ m. (s : Text) × (m ≡ pre ++ s)) ms)
      (plain : has_wildcard sandboxname ≡ false)
      (unescaped : has_byte b'\\' sandboxname ≡ false) where
    chown_matches-Below :
        (ms owned : List Text)
        → All (Below sandboxname) ms
        → All (Below sandboxname) owned
        → All (Below sandboxname) (chown_matches errors found glob ms owned)
    unfolding chown_matches
    chown_matches-Below [] owned b a = a
    chown_matches-Below (m ∷ ms) owned b a =
        chown_matches-Below ms (chown_found errors m (found m) owned).0 b.1
          (chown_found-Below m (found m) owned b.0 a)

    has_wildcard-slash : (s : Text) → has_wildcard s ≡ false → has_wildcard (s ++ b'/' ∷ []) ≡ false
    unfolding has_wildcard
    has_wildcard-slash [] e = refl
    has_wildcard-slash (c ∷ s) e = ground (arith, has_wildcard-slash s)

    has_byte-slash : (s : Text) → has_byte b'\\' s ≡ false → has_byte b'\\' (s ++ b'/' ∷ []) ≡ false
    unfolding has_byte
    has_byte-slash [] e = refl
    has_byte-slash (c ∷ s) e = ground (arith, has_byte-slash s)

    matches-Below :
        (ms : List Text)
        → All (λ m. (s : Text) × (m ≡ (sandboxname ++ b'/' ∷ []) ++ s)) ms
        → All (Below sandboxname) ms
    matches-Below [] a = tt
    matches-Below (m ∷ ms) ((s, e), a) =
        ((s, e ∙ append_assoc sandboxname (b'/' ∷ []) s), matches-Below ms a)

    globbed-Below :
        (rel : Text) (owned : List Text)
        → All (Below sandboxname) owned
        → All
            (Below sandboxname)
            (chown_globbed errors found glob (glob (child_path sandboxname rel)) owned)
    globbed-Below rel owned a = elim (Option-cases (glob (child_path sandboxname rel))) [
      | inl e ↦ rw e a
      | inr (ms, e) ↦
          let known =
            literal (sandboxname ++ b'/' ∷ []) rel ms (has_wildcard-slash sandboxname plain)
              (has_byte-slash sandboxname unescaped)
              (ap glob (append_assoc sandboxname (b'/' ∷ []) rel) ∙ e) in
          rw e (chown_matches-Below ms owned (matches-Below ms known) a)
    ]

    one-Below :
        (rel : Text) (owned : List Text)
        → All (Below sandboxname) owned
        → All (Below sandboxname) (post_mount_chown_one errors found glob sandboxname rel owned)
    unfolding post_mount_chown_one
    one-Below rel owned a =
        let target = child_path sandboxname rel in
        elim (Bool-cases (too_long target)) [
          | inl e ↦ rw e a
          | inr e ↦ elim (Bool-cases (has_wildcard rel)) [
            | inl e' ↦ rw (e, e') (globbed-Below rel owned a)
            | inr e' ↦ rw (e, e') (chown_found-Below target (found target) owned (rel, refl) a)
          ]
        ]

    pub thread-Below :
        (dirs owned : List Text)
        → All (Below sandboxname) owned
        → All (Below sandboxname) (post_mount_chown_thread errors found glob sandboxname dirs owned)
    unfolding post_mount_chown_thread
    thread-Below [] owned a = a
    thread-Below (rel ∷ dirs) owned a =
        thread-Below dirs (post_mount_chown_one errors found glob sandboxname rel owned)
          (one-Below rel owned a)
