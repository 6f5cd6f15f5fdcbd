-- ===== src/Exports/Entries.antt =====
-- Which lines of /etc/exports line_matches_mountpath takes for entries of a mount point.
use mathlib.Core.List.{nil≢cons}
use mathlib.Core.Option.{some-injective, none-ne-some}
use aiomb.Prelude.{
  ◌≡◌, refl, sym, ap, ◌∙◌, ◌↔◌, [], ◌∷◌, ◌++◌, true, false, some, Text, All, is_empty, inl, inr,
  ◌⊎◌, arith, Bool-cases, Option-cases, ◌==◌, ==_iff,
}
use aiomb.CString.{isspace, trim_left, strip_prefix, first}
use aiomb.Exports.{line_matches_mountpath, ends_word}
use aiomb.Exports.Lines.{IsMountpoint, of_mountpoint, strip_prefix-append}

-- Behind white space, the line has the mount point, and then its end or white space.
abbrev pub IsEntry : Text → Text → Type 0
IsEntry mp l =
    (blank : Text) × (rest : Text) × All (λ c. isspace c ≡ true) blank
    × (l ≡ blank ++ (mp ++ rest))
    × ((rest ≡ []) ⊎ (isspace (first rest) ≡ true))

trim_split :
    (l : Text) → (blank : Text) × All (λ c. isspace c ≡ true) blank × (l ≡ blank ++ trim_left l)
unfolding trim_left
trim_split [] = ([], tt, refl)
trim_split (c ∷ l) =
    let (blank, all, same) = trim_split l in
    elim (Bool-cases (isspace c)) [
      | inl e ↦ (c ∷ blank, (e, all), rw e (ap (λ x. c ∷ x) same))
      | inr e ↦ ([], tt, rw e refl)
    ]

trim_left-blank :
    (blank t : Text)
    → All (λ c. isspace c ≡ true) blank
    → is_empty t ≡ false
    → isspace (first t) ≡ false
    → trim_left (blank ++ t) ≡ t
unfolding trim_left
trim_left-blank [] [] all h h' = refl
trim_left-blank [] (c ∷ t) all h h' = rw h' refl
trim_left-blank (c ∷ blank) t (e, all) h h' = rw e (trim_left-blank blank t all h h')

strip_prefix-eq-some : (mp t r : Text) → strip_prefix mp t ≡ some r → t ≡ mp ++ r
unfolding strip_prefix
strip_prefix-eq-some [] t r h = some-injective t r h
strip_prefix-eq-some (p ∷ mp) [] r h = absurd (none-ne-some _ h)
strip_prefix-eq-some (p ∷ mp) (c ∷ t) r h = elim (Bool-cases (p == c)) [
  | inl e ↦
      let rest = strip_prefix-eq-some mp t r (rw e at h) in
      ap (λ x. x ∷ t) (sym ((==_iff p c).0 e)) ∙ ap (λ x. p ∷ x) rest
  | inr e ↦ absurd (none-ne-some _ (rw e at h))
]

ends_word_sound :
    (rest : Text) → ends_word rest ≡ true → (rest ≡ []) ⊎ (isspace (first rest) ≡ true)
ends_word_sound [] e = inl refl
ends_word_sound (c ∷ s) e = inr e

ends_word_complete :
    (rest : Text) → (rest ≡ []) ⊎ (isspace (first rest) ≡ true) → ends_word rest ≡ true
ends_word_complete [] h = refl
ends_word_complete (c ∷ s) (inl e) = absurd (nil≢cons (sym e))
ends_word_complete (c ∷ s) (inr e) = e

starts :
    (mp rest : Text)
    → IsMountpoint mp
    → (is_empty (mp ++ rest) ≡ false) × (isspace (first (mp ++ rest)) ≡ false)
starts [] rest h = ground arith
starts (c ∷ mp) rest h = (refl, h.1)

of_mountpoint_sound : (mp l : Text) → of_mountpoint mp l ≡ true → IsEntry mp l
unfolding line_matches_mountpath
of_mountpoint_sound mp l m =
    let (blank, all, same) = trim_split l in
    elim (Option-cases (strip_prefix mp (trim_left l))) [
      | inl e ↦ let wrong : false ≡ true = rw (e, line_matches_mountpath) at m in ground arith
      | inr (rest, e) ↦
          let ends : ends_word rest ≡ true = rw (e, line_matches_mountpath) at m in
          (
            blank,
            rest,
            all,
            same ∙ ap (λ x. blank ++ x) (strip_prefix-eq-some mp (trim_left l) rest e),
            ends_word_sound rest ends,
          )
    ]

of_mountpoint_complete : (mp l : Text) → IsMountpoint mp → IsEntry mp l → of_mountpoint mp l ≡ true
unfolding line_matches_mountpath
of_mountpoint_complete mp l h (blank, rest, all, same, ends) =
    let (some_byte, no_blank) = starts mp rest h in
    let trimmed : trim_left l ≡ mp ++ rest =
      ap trim_left same ∙ trim_left-blank blank (mp ++ rest) all some_byte no_blank in
    rw (trimmed, strip_prefix-append mp rest, line_matches_mountpath) (ends_word_complete rest ends)

-- The test of the code says exactly which lines are entries.
pub of_mountpoint_iff : (mp l : Text) → IsMountpoint mp → (of_mountpoint mp l ≡ true) ↔ IsEntry mp l
of_mountpoint_iff mp l h = (of_mountpoint_sound mp l, of_mountpoint_complete mp l h)
