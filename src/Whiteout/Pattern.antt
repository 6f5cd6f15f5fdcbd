-- ===== src/Whiteout/Pattern.antt =====
-- The matcher of whiteout patterns against what a pattern means.
use aiomb.Prelude.{
  List, [], ◌∷◌, ◌++◌, Bool, true, false, ◌||◌, ◌&&◌, Text, is_empty, text_eq, ◌≡◌, refl, sym, ap,
  ◌∙◌, ◌↔◌, inl, inr, Bool-cases, arith,
}
use mathlib.Core.List.{append-nil}
use aiomb.Whiteout.{any_tail, stars, pattern_matches_segments}

module _ (fnmatch : Text → Text → Bool) where
  -- What a pattern means: `**` stands for any number of segments, and another segment for one that
  -- `fnmatch` accepts.
  pub data Matches : List Text → List Text → Type 0 where
    done : Matches [] []
    many :
        (p : Text) (ps skipped rest segs : List Text)
        → text_eq p stars ≡ true
        → segs ≡ skipped ++ rest
        → Matches ps rest
        → Matches (p ∷ ps) segs
    one :
        (p : Text) (ps : List Text) (s : Text) (ss : List Text)
        → text_eq p stars ≡ false
        → fnmatch p s ≡ true
        → Matches ps ss
        → Matches (p ∷ ps) (s ∷ ss)

  any_tail_skip :
      (f : List Text → Bool) (skipped segs : List Text)
      → f segs ≡ true
      → any_tail f (skipped ++ segs) ≡ true
  unfolding any_tail
  any_tail_skip f [] [] h = h
  any_tail_skip f [] (s ∷ ss) h = ground arith
  any_tail_skip f (x ∷ xs) segs h = ground (arith, any_tail_skip f xs segs h)

  any_tail_find :
      (f : List Text → Bool) (segs : List Text)
      → any_tail f segs ≡ true
      → (skipped : List Text) × (rest : List Text) × (segs ≡ skipped ++ rest) × (f rest ≡ true)
  unfolding any_tail
  any_tail_find f [] h = ([], [], refl, h)
  any_tail_find f (s ∷ ss) h = elim (Bool-cases (f (s ∷ ss))) [
    | inl here ↦ ([], s ∷ ss, refl, here)
    | inr later ↦
        let (skipped, rest, e, found) = any_tail_find f ss (rw later at h) in
        (s ∷ skipped, rest, ap (λ r. s ∷ r) e, found)
  ]

  -- At `**`, the C code tries every tail, and takes the last one at once when the pattern ends there.
  matches_stars :
      (p : Text) (ps segs : List Text)
      → text_eq p stars ≡ true
      → pattern_matches_segments fnmatch (p ∷ ps) segs
        ≡ (is_empty ps || any_tail (λ tail. pattern_matches_segments fnmatch ps tail) segs)
  unfolding pattern_matches_segments
  matches_stars p ps [] e = rw e refl
  matches_stars p ps (s ∷ ss) e = rw e refl

  or_true : (b c : Bool) → c ≡ true → (b || c) ≡ true
  or_true b c h = ground arith

  Matches-complete :
      {ps segs : List Text} → Matches ps segs → pattern_matches_segments fnmatch ps segs ≡ true
  unfolding pattern_matches_segments
  Matches-complete done = refl
  Matches-complete (many p ps skipped rest segs e split m) =
      let f = λ (tail : List Text). pattern_matches_segments fnmatch ps tail in
      matches_stars p ps segs e
      ∙ or_true (is_empty ps) (any_tail f segs)
          (rw split (any_tail_skip f skipped rest (Matches-complete m)))
  Matches-complete (one p ps s ss e fits m) = rw (e, fits, Matches-complete m) refl

  split_at_stars :
      (ps segs : List Text)
      → ((tail : List Text) → pattern_matches_segments fnmatch ps tail ≡ true → Matches ps tail)
      → (is_empty ps || any_tail (λ tail. pattern_matches_segments fnmatch ps tail) segs) ≡ true
      → (skipped : List Text) × (rest : List Text) × (segs ≡ skipped ++ rest) × Matches ps rest
  split_at_stars [] segs sound h = (segs, [], sym (append-nil segs), done)
  split_at_stars (q ∷ qs) segs sound h =
      let f = λ (tail : List Text). pattern_matches_segments fnmatch (q ∷ qs) tail in
      let (skipped, rest, e, found) = any_tail_find f segs h in (skipped, rest, e, sound rest found)

  and_true : (b c : Bool) → (b && c) ≡ true → (b ≡ true) × (c ≡ true)
  and_true b c h = ground arith

  Matches-sound :
      (ps segs : List Text) → pattern_matches_segments fnmatch ps segs ≡ true → Matches ps segs
  unfolding pattern_matches_segments
  Matches-sound [] [] h = done
  Matches-sound [] (s ∷ ss) h = ground arith
  Matches-sound (p ∷ ps) [] h = elim (Bool-cases (text_eq p stars)) [
    | inr e ↦ let wrong : false ≡ true = (rw e at h) in ground arith
    | inl e ↦
        let (skipped, rest, split, m) =
          split_at_stars ps [] (λ tail. Matches-sound ps tail)
            (sym (matches_stars p ps [] e) ∙ h) in
        many p ps skipped rest [] e split m
  ]
  Matches-sound (p ∷ ps) (s ∷ ss) h = elim (Bool-cases (text_eq p stars)) [
    | inl e ↦
        let (skipped, rest, split, m) =
          split_at_stars ps (s ∷ ss) (λ tail. Matches-sound ps tail)
            (sym (matches_stars p ps (s ∷ ss) e) ∙ h) in
        many p ps skipped rest (s ∷ ss) e split m
    | inr e ↦
        let (fits, more) =
          and_true (fnmatch p s) (pattern_matches_segments fnmatch ps ss) (rw e at h) in
        one p ps s ss e fits (Matches-sound ps ss more)
  ]

  -- The C matcher accepts a path exactly when the pattern means it.
  pub pattern_matches_segments_iff :
      (ps segs : List Text) → (pattern_matches_segments fnmatch ps segs ≡ true) ↔ Matches ps segs
  pattern_matches_segments_iff ps segs = (Matches-sound ps segs, Matches-complete)
