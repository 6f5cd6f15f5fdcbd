-- ===== src/Exports/Lines.antt =====
-- /etc/exports as a list of lines, each short enough for one `fgets`.
use aiomb.Prelude.{
  ◌+◌, ◌<◌, ◌≡◌, refl, List, [], ◌∷◌, ◌++◌, Bool, true, false, not, Option, none, some, Text,
  length, All, is_empty, select, arith, ap, ◌∙◌, inl, inr, Bool-cases, if◌then◌else◌, map,
  Option-cases, ◌||◌,
}
use mathlib.Core.List.{append_assoc}
use aiomb.CString.{isspace, trim_left, strip_prefix, fgets_all, fgets_from, has_byte, first}
use aiomb.CString.Laws.{fgets_all-line}
use aiomb.Exports.{line_matches_mountpath, any_match, copy_unmatched, ends_word}

abbrev pub unlines : List Text → Text
unlines [] = []
unlines (l ∷ ls) = l ++ 10 ∷ unlines ls

abbrev pub IsLine : Text → Type 0
IsLine l = (has_byte 10 l ≡ false) × (length l + 1 < 8192)

-- A mount point that can stand at the start of a line.
abbrev pub IsMountpoint : Text → Type 0
IsMountpoint mp = (is_empty mp ≡ false) × (isspace (first mp) ≡ false) × (has_byte 10 mp ≡ false)

abbrev pub with_newline : Text → Text
with_newline l = l ++ 10 ∷ []

strip_prefix-newline :
    (mp l : Text)
    → has_byte 10 mp ≡ false
    → strip_prefix mp (with_newline l) ≡ elim (strip_prefix mp l) as (λ _. Option Text) [
      | none ↦ none
      | some r ↦ some (with_newline r)
    ]
unfolding strip_prefix has_byte
strip_prefix-newline [] l h = refl
strip_prefix-newline (p ∷ mp) [] h = ground arith
strip_prefix-newline (p ∷ mp) (c ∷ l) h = ground (arith, strip_prefix-newline mp l)

trim_left-newline :
    (l : Text)
    → trim_left (with_newline l)
      ≡ (if is_empty (trim_left l) then [] else with_newline (trim_left l))
unfolding trim_left isspace
trim_left-newline [] = refl
trim_left-newline (c ∷ l) = ground (arith, trim_left-newline l)

-- The newline makes no difference to the match.
matches_trimmed :
    (t mp : Text)
    → IsMountpoint mp
    → (elim (strip_prefix mp (if is_empty t then [] else with_newline t)) as (λ _. Bool) [
      | none ↦ false
      | some rest ↦ ends_word rest
    ])
      ≡ (elim (strip_prefix mp t) as (λ _. Bool) [ none ↦ false | some rest ↦ ends_word rest ])
unfolding strip_prefix isspace
matches_trimmed [] mp h = refl
matches_trimmed (c ∷ t) mp h =
    rw (strip_prefix-newline mp (c ∷ t) h.2) (elim (Option-cases (strip_prefix mp (c ∷ t))) [
      | inl e ↦ rw e
      | inr ([], e) ↦ rw e
      | inr (d ∷ r, e) ↦ rw e
    ])

pub matches-newline :
    (l mp : Text)
    → IsMountpoint mp
    → line_matches_mountpath (with_newline l) mp ≡ line_matches_mountpath l mp
unfolding line_matches_mountpath
matches-newline l mp h =
    rw (trim_left-newline l, line_matches_mountpath) (matches_trimmed (trim_left l) mp h)

pub fgets_all-unlines :
    (ls : List Text) → All IsLine ls → fgets_all 8192 (unlines ls) ≡ map with_newline ls
unfolding fgets_all fgets_from
fgets_all-unlines [] h = refl
fgets_all-unlines (l ∷ ls) h =
    fgets_all-line 8192 l (unlines ls) h.0.0 h.0.1
    ∙ ap (λ (r : List Text). with_newline l ∷ r) (fgets_all-unlines ls h.1)

-- The line is an entry of the mount point.
abbrev pub of_mountpoint : Text → Text → Bool
of_mountpoint mp l = line_matches_mountpath l mp

abbrev pub any_of : (Text → Bool) → List Text → Bool
any_of p [] = false
any_of p (l ∷ ls) = p l || any_of p ls

pub any_match-unlines :
    (mp : Text) (ls : List Text)
    → IsMountpoint mp
    → any_match mp (map with_newline ls) ≡ any_of (of_mountpoint mp) ls
unfolding any_match
any_match-unlines mp [] h = refl
any_match-unlines mp (l ∷ ls) h = rw (matches-newline l mp h, any_match-unlines mp ls h)

pub copy_unmatched-unlines :
    (mp : Text) (ls : List Text)
    → IsMountpoint mp
    → copy_unmatched mp (map with_newline ls)
      ≡ (unlines (select (λ l. not (of_mountpoint mp l)) ls), any_of (of_mountpoint mp) ls)
unfolding copy_unmatched select
copy_unmatched-unlines mp [] h = refl
copy_unmatched-unlines mp (l ∷ ls) h = elim (Bool-cases (line_matches_mountpath l mp)) [
  | inl e ↦ rw (matches-newline l mp h, e, copy_unmatched-unlines mp ls h)
  | inr e ↦
      rw (matches-newline l mp h, e, copy_unmatched-unlines mp ls h)
        (ap (λ (t : Text). (t, any_of (of_mountpoint mp) ls)) (append_assoc l (10 ∷ []) _))
]

pub strip_prefix-append : (mp r : Text) → strip_prefix mp (mp ++ r) ≡ some r
unfolding strip_prefix
strip_prefix-append [] r = refl
strip_prefix-append (p ∷ mp) r = ground (arith, strip_prefix-append mp r)

-- A line that begins with the mount point and a space is an entry of it.
pub entry_matches : (mp s : Text) → IsMountpoint mp → of_mountpoint mp (mp ++ b' ' ∷ s) ≡ true
unfolding line_matches_mountpath trim_left isspace
entry_matches [] s h = cc
entry_matches (c ∷ mp) s h = ground (arith, strip_prefix-append (c ∷ mp) (b' ' ∷ s))
