-- ===== src/Frames/Segments.antt =====
-- The loop of reads of mbroker/daemon/model_client.c: however the bytes are cut into segments, it gets the same.
use aiomb.Prelude.{
  ℕ, ◌-◌, ◌≤◌, ◌<◌, List, [], ◌∷◌, ◌++◌, true, false, some, Text, ◌==◌, leb, length, take, drop,
  is_empty, All, ◌≡◌, refl, sym, ap, arith, inl, inr, Bool-cases, length-append,
}
use mathlib.Core.List.{nil≢cons}
use mathlib.Core.Bool.{true≢false}
use aiomb.CString.{concat}
use aiomb.Frames.{read_all}

take-append : (s t : Text) → take (length s) (s ++ t) ≡ s
take-append [] t = refl
take-append (c ∷ s) t = ap (λ (u : Text). c ∷ u) (take-append s t)

drop-append : (s t : Text) → drop (length s) (s ++ t) ≡ t
drop-append [] t = refl
drop-append (c ∷ s) t = drop-append s t

abbrev head_or : ℕ → Text → ℕ
head_or d [] = d
head_or d (c ∷ s) = c

-- Of two ways to cut the same text, the longer first part starts with the shorter one.
append-cut :
    (a b c d : Text)
    → a ++ b ≡ c ++ d
    → length a ≤ length c
    → (m : Text) × (c ≡ a ++ m) × (b ≡ m ++ d)
append-cut [] b c d e h = (c, refl, e)
append-cut (x ∷ a) b [] d e h = absurd (omega arith)
append-cut (x ∷ a) b (y ∷ c) d e h =
    let ih = append-cut a b c d (ap (λ (s : Text). drop 1 s) e) (omega arith) in
    let x≡y : x ≡ y = ap {B = ℕ} (λ (s : Text). head_or 0 s) e in
    let c≡ : y ∷ c ≡ x ∷ a ++ ih.0 = rw x≡y (ap (λ (s : Text). y ∷ s) ih.1) in (ih.0, c≡, ih.2)

leb→le : {a b : ℕ} → leb a b ≡ true → a ≤ b
leb→le h = ground arith

leb→lt : {a b : ℕ} → leb a b ≡ false → b < a
leb→lt h = ground arith

nonempty : (s : Text) → 0 < length s → is_empty s ≡ false
nonempty [] h = absurd (omega arith)
nonempty (c ∷ s) h = refl

read_all-whole :
    (seg : Text) (segs : List Text) (n : ℕ) {s got : Text} {rest : List Text}
    → s ≡ seg ++ got
    → is_empty seg ≡ false
    → length seg ≤ n
    → read_all segs (n - length seg) ≡ some (got, rest)
    → read_all (seg ∷ segs) n ≡ some (s, rest)
unfolding read_all
read_all-whole [] segs n w h le e = absurd (true≢false h)
read_all-whole (c ∷ seg) segs n w h le e =
    let positive : (n == 0) ≡ false = ground arith in
    let fits : leb (length (c ∷ seg)) n ≡ true = ground arith in rw (w, positive, fits, e) refl

read_all-part :
    (c : ℕ) (s m : Text) {seg : Text} (segs : List Text)
    → seg ≡ c ∷ s ++ m
    → 0 < length m
    → read_all (seg ∷ segs) (length (c ∷ s)) ≡ some (c ∷ s, m ∷ segs)
unfolding read_all
read_all-part c s m segs w h =
    let long : leb (length (c ∷ s ++ m)) (length (c ∷ s)) ≡ false =
      ground (arith, length-append s m) in
    let positive : (length (c ∷ s) == 0) ≡ false = ground arith in
    rw (w, positive, long, take-append s m, drop-append s m) refl

-- Where no read fails and the segments hold s first, the loop of reads for the length of s gets s, however it is cut, and
-- leaves what follows.
pub read_all_lem :
    (segs : List Text) (s t : Text)
    → All (λ seg. is_empty seg ≡ false) segs
    → concat segs ≡ s ++ t
    → (rest : List Text) × (read_all segs (length s) ≡ some (s, rest))
      × All (λ seg. is_empty seg ≡ false) rest
      × (concat rest ≡ t)
unfolding read_all
read_all_lem [] [] t h e = ([], refl, tt, e)
read_all_lem [] (c ∷ s) t h e = absurd (nil≢cons e)
read_all_lem (seg ∷ segs) [] t h e = (seg ∷ segs, refl, h, e)
read_all_lem (seg ∷ segs) (c ∷ s) t h e = elim (Bool-cases (leb (length seg) (length (c ∷ s)))) [
  | inl le ↦
      let cut = append-cut seg (concat segs) (c ∷ s) t e (leb→le le) in
      let ih = read_all_lem segs cut.0 t h.1 cut.2 in
      let left : length cut.0 ≡ length (c ∷ s) - length seg =
        omega (arith, ap (λ (u : Text). length u) cut.1, length-append seg cut.0) in
      let more = read_all-whole seg segs (length (c ∷ s)) cut.1 h.0 (leb→le le) (rw left at ih.1) in
      (ih.0, more, ih.2, ih.3)
  | inr gt ↦
      let cut = append-cut (c ∷ s) t seg (concat segs) (sym e) (omega (arith, leb→lt gt)) in
      let long : 0 < length cut.0 =
        omega (arith, ap (λ (u : Text). length u) cut.1, length-append (c ∷ s) cut.0, leb→lt gt) in
      let part : read_all (seg ∷ segs) (length (c ∷ s)) ≡ some (c ∷ s, cut.0 ∷ segs) =
        read_all-part c s cut.0 segs cut.1 long in
      (cut.0 ∷ segs, part, (nonempty cut.0 long, h.1), sym cut.2)
]
