-- ===== src/MountInfo/Proc.antt =====
-- mountinfo_is_mounted of mbroker/daemon/mountinfo.c, which reads /proc/self/mountinfo.
use mathlib.Core.Path.{subst}
use mathlib.Core.Option.{none-ne-some, some-injective}
use aiomb.Prelude.{
  ℕ, zero, suc, ◌++◌, ◌==◌, ==_iff, ap, ◌∙◌, Bool-cases, get_elem?, text_eq, ◌≡◌, refl, [], ◌∷◌,
  true, false, List, Option, none, some, Text, text_eq_iff, text_eq_sound, arith, inl, inr,
  Option-cases, ◌⊎◌, ◌↔◌,
}
use aiomb.CString.{split, has_byte, fgets_all}
use aiomb.CString.Laws.{split-All, get_elem?-All}
use aiomb.MountInfo.{line_mountpoint, any_line, mountinfo_is_mounted}

-- The field of a line that has `n` spaces in front of it.
abbrev pub IsField : ℕ → Text → Text → Type 0
IsField zero w l = (has_byte 32 w ≡ false) × ((l ≡ w) ⊎ ((rest : Text) × (l ≡ w ++ 32 ∷ rest)))
IsField (suc n) w l =
    (a : Text) × (rest : Text) × (has_byte 32 a ≡ false) × (l ≡ a ++ 32 ∷ rest) × IsField n w rest

-- Some line has the path as its fifth field.
abbrev pub Listed : Text → List Text → Type 0
Listed path [] = ⊥
Listed path (l ∷ ls) = IsField 4 path l ⊎ Listed path ls

split-clean : (w : Text) → has_byte 32 w ≡ false → split 32 w ≡ w ∷ []
unfolding split has_byte
split-clean [] h = refl
split-clean (c ∷ w) h = ground (arith, split-clean w)

split-field :
    (a rest : Text) → has_byte 32 a ≡ false → split 32 (a ++ 32 ∷ rest) ≡ a ∷ split 32 rest
unfolding split has_byte
split-field [] rest h = refl
split-field (c ∷ a) rest h = ground (arith, split-field a rest)

-- A line is one field, or its first field, a space and more.
first_field :
    (l : Text)
    → (has_byte 32 l ≡ false)
      ⊎ ((a : Text) × (rest : Text) × (has_byte 32 a ≡ false) × (l ≡ a ++ 32 ∷ rest))
unfolding has_byte
first_field [] = inl refl
first_field (c ∷ l) = elim (Bool-cases (c == 32)) [
  | inl e ↦ inr ([], l, refl, ap (λ x. x ∷ l) ((==_iff c 32).0 e))
  | inr e ↦ elim (first_field l) [
    | inl h ↦ inl (rw (e, h) refl)
    | inr (a, rest, h, same) ↦ inr (c ∷ a, rest, rw (e, h) refl, ap (λ x. c ∷ x) same)
  ]
]

IsField-sound : (n : ℕ) (w l : Text) → get_elem? (split 32 l) n ≡ some w → IsField n w l
IsField-sound zero w l h = elim (first_field l) [
  | inl e ↦
      let same = some-injective l w (rw (split-clean l e) at h) in
      (subst (λ x. has_byte 32 x ≡ false) same e, inl same)
  | inr (a, rest, e, is) ↦
      let h' : get_elem? (split 32 (a ++ 32 ∷ rest)) 0 ≡ some w =
        subst (λ x. get_elem? (split 32 x) 0 ≡ some w) is h in
      let same = some-injective a w (rw (split-field a rest e) at h') in
      (subst (λ x. has_byte 32 x ≡ false) same e, inr (rest, is ∙ ap (λ x. x ++ 32 ∷ rest) same))
]
IsField-sound (suc n) w l h = elim (first_field l) [
  | inl e ↦ absurd (none-ne-some _ (rw (split-clean l e) at h))
  | inr (a, rest, e, is) ↦
      let h' : get_elem? (split 32 (a ++ 32 ∷ rest)) (suc n) ≡ some w =
        subst (λ x. get_elem? (split 32 x) (suc n) ≡ some w) is h in
      (a, rest, e, is, IsField-sound n w rest (rw (split-field a rest e) at h'))
]

IsField-complete : (n : ℕ) (w l : Text) → IsField n w l → get_elem? (split 32 l) n ≡ some w
IsField-complete zero w l (e, inl is) = rw (is, split-clean w e) refl
IsField-complete zero w l (e, inr (rest, is)) = rw (is, split-field w rest e) refl
IsField-complete (suc n) w l (a, rest, e, is, f) =
    rw (is, split-field a rest e) (IsField-complete n w rest f)

mountpoint_sound : (path l : Text) → line_mountpoint l ≡ some path → IsField 4 path l
unfolding line_mountpoint
mountpoint_sound path l h = IsField-sound 4 path l h

mountpoint_complete : (path l : Text) → IsField 4 path l → line_mountpoint l ≡ some path
unfolding line_mountpoint
mountpoint_complete path l f = IsField-complete 4 path l f

any_line_sound : (path : Text) (ls : List Text) → any_line path ls ≡ true → Listed path ls
unfolding any_line
any_line_sound path [] h = cc
any_line_sound path (l ∷ ls) h = elim (Option-cases (line_mountpoint l)) [
  | inl e ↦ inr (any_line_sound path ls (ground arith))
  | inr (f, e) ↦ elim (Bool-cases (text_eq f path)) [
    | inl same ↦ inl (mountpoint_sound path l (e ∙ ap some (text_eq_sound f path same)))
    | inr other ↦ inr (any_line_sound path ls (ground arith))
  ]
]

any_line_complete : (path : Text) (ls : List Text) → Listed path ls → any_line path ls ≡ true
unfolding any_line
any_line_complete path [] h = elim h [ ]
any_line_complete path (l ∷ ls) (inl f) =
    let e = mountpoint_complete path l f in ground (arith, text_eq_iff path path)
any_line_complete path (l ∷ ls) (inr h) = ground (arith, any_line_complete path ls h)

-- A path is reported as mounted exactly when a line of the file, as `fgets` cuts it into pieces of at
-- most 4095 bytes, has it as its fifth field: behind four fields
-- without a space, each with one space after it, and in front of a space or the end of the line.
pub mountinfo_is_mounted_lem :
    (content path : Text)
    → (mountinfo_is_mounted (some content) path ≡ true) ↔ Listed path (fgets_all 4096 content)
unfolding mountinfo_is_mounted
mountinfo_is_mounted_lem content path =
    (any_line_sound path (fgets_all 4096 content), any_line_complete path (fgets_all 4096 content))

spaced : (path : Text) (ls : List Text) → has_byte 32 path ≡ true → any_line path ls ≡ false
unfolding any_line line_mountpoint
spaced path [] h = refl
spaced path (l ∷ ls) h = elim (Option-cases (line_mountpoint l)) [
  | inl e ↦ ground (arith, spaced path ls h)
  | inr (f, e) ↦
      let clean : has_byte 32 f ≡ false =
        get_elem?-All (λ w. has_byte 32 w ≡ false) (split 32 l) 4 (split-All 32 l) e in
      ground (arith, spaced path ls h, text_eq_sound f path)
]

-- A path with a space in it is never reported as mounted, whatever the file holds.
pub mountinfo_is_mounted_space :
    (content : Option Text) (path : Text)
    → has_byte b' ' path ≡ true
    → mountinfo_is_mounted content path ≡ false
unfolding mountinfo_is_mounted
mountinfo_is_mounted_space none path h = refl
mountinfo_is_mounted_space (some content) path h = spaced path (fgets_all 4096 content) h
