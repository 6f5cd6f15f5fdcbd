-- ===== src/CString/Laws.antt =====
-- Laws of the string routines, for the proofs of the other modules.
use aiomb.Prelude.{
  ℕ, zero, suc, ◌-◌, ◌<◌, ◌≡◌, refl, ap, ◌∙◌, List, [], ◌∷◌, ◌++◌, Bool, true, false, not, some,
  Text, All, length, take, get_elem?, ◌==◌, ◌||◌, leb, ◌+◌, select, is_empty, length-take-le,
  take-eq_of_le, take_idem, arith, Bool-cases, inl, inr,
}
use mathlib.Core.Path.{subst}
use mathlib.Core.Option.{some-injective}
use aiomb.CString.{
  fit, trim_left, trim_right, strip, push, split, tokens, fgets_from, fgets_all, has_dotdot, concat,
  has_byte, first,
}

pub fit-of_fits : (n : ℕ) (s : Text) → length s < n → fit n s ≡ s
unfolding fit
fit-of_fits n s h = take-eq_of_le (n - 1) s (omega arith)

pub length-fit : (n : ℕ) (s : Text) → 0 < n → length (fit n s) < n
unfolding fit
length-fit n s h = omega (arith, length-take-le (n - 1) s)

pub fit_idem : (n : ℕ) (s : Text) → fit n (fit n s) ≡ fit n s
unfolding fit
fit_idem n s = take_idem (n - 1) s

-- No byte of a piece is the delimiter.
push-All :
    (d c : ℕ) (ws : List Text)
    → (c == d) ≡ false
    → All (λ w. has_byte d w ≡ false) ws
    → All (λ w. has_byte d w ≡ false) (push c ws)
unfolding has_byte
push-All d c [] e h = (ground arith, tt)
push-All d c (w ∷ ws) e h = (ground arith, h.1)

pub split-All : (d : ℕ) (s : Text) → All (λ w. has_byte d w ≡ false) (split d s)
unfolding split has_byte
split-All d [] = (refl, tt)
split-All d (c ∷ s) = elim (Bool-cases (c == d)) [
  | inl e ↦ rw e (refl, split-All d s)
  | inr e ↦ rw e (push-All d c (split d s) e (split-All d s))
]

pub get_elem?-All {ℓ κ} :
    {A : Type ℓ} (P : A → Type κ) (xs : List A) (i : ℕ) {x : A}
    → All P xs
    → get_elem? xs i ≡ some x
    → P x
get_elem?-All P [] i h e = cc
get_elem?-All P (x ∷ xs) zero h e = subst P (some-injective _ _ e) h.0
get_elem?-All P (x ∷ xs) (suc i) h e = get_elem?-All P xs i h.1 e

pub All-select {ℓ κ} :
    {A : Type ℓ} (P : A → Type κ) (p : A → Bool) (xs : List A) → All P xs → All P (select p xs)
unfolding select
All-select P p [] h = tt
All-select P p (x ∷ xs) h = elim (Bool-cases (p x)) [
  | inl e ↦ rw e (h.0, All-select P p xs h.1)
  | inr e ↦ rw e (All-select P p xs h.1)
]

pub select-All {ℓ} : {A : Type ℓ} (p : A → Bool) (xs : List A) → All (λ x. p x ≡ true) (select p xs)
unfolding select
select-All p [] = tt
select-All p (x ∷ xs) = elim (Bool-cases (p x)) [
  | inl e ↦ rw e (e, select-All p xs)
  | inr e ↦ rw e (select-All p xs)
]

-- A token is not empty and has no delimiter in it.
pub tokens-All : (d : ℕ) (s : Text) → All (λ w. has_byte d w ≡ false) (tokens d s)
unfolding tokens
tokens-All d s = All-select _ _ (split d s) (split-All d s)

pub tokens_nonempty : (d : ℕ) (s : Text) → All (λ w. not (is_empty w) ≡ true) (tokens d s)
unfolding tokens
tokens_nonempty d s = select-All _ (split d s)

-- What `fgets` reads, put together again, is the file.
concat-push : (c : ℕ) (ws : List Text) → concat (push c ws) ≡ c ∷ concat ws
concat-push c [] = refl
concat-push c (w ∷ ws) = refl

concat-fgets_from : (room k : ℕ) (s : Text) → concat (fgets_from room k s) ≡ s
unfolding fgets_from
concat-fgets_from room k [] = refl
concat-fgets_from room k (c ∷ s) = elim (Bool-cases (c == 10 || leb k 1)) [
  | inl e ↦ rw e (ap (λ (t : Text). c ∷ t) (concat-fgets_from room room s))
  | inr e ↦ rw e (
      concat-push c (fgets_from room (k - 1) s)
      ∙ ap (λ (t : Text). c ∷ t) (concat-fgets_from room (k - 1) s))
]

pub concat-fgets_all : (n : ℕ) (s : Text) → concat (fgets_all n s) ≡ s
unfolding fgets_all
concat-fgets_all n s = concat-fgets_from (n - 1) (n - 1) s

-- A line that fits is read whole, and the rest as if it stood alone.
fgets_from-line :
    (room k : ℕ) (l s : Text)
    → has_byte 10 l ≡ false
    → length l < k
    → fgets_from room k (l ++ 10 ∷ s) ≡ (l ++ 10 ∷ []) ∷ fgets_from room room s
unfolding fgets_from has_byte
fgets_from-line room k [] s h lt = refl
fgets_from-line room k (c ∷ l) s h lt = ground (arith, fgets_from-line room (k - 1) l s)

pub fgets_all-line :
    (n : ℕ) (l s : Text)
    → has_byte 10 l ≡ false
    → length l + 1 < n
    → fgets_all n (l ++ 10 ∷ s) ≡ (l ++ 10 ∷ []) ∷ fgets_all n s
unfolding fgets_all
fgets_all-line n l s h lt = fgets_from-line (n - 1) (n - 1) l s h (omega arith)

-- Trimming.
trim_left_idem : (s : Text) → trim_left (trim_left s) ≡ trim_left s
unfolding trim_left
trim_left_idem [] = refl
trim_left_idem (c ∷ s) = ground (arith, trim_left_idem s)

trim_right_idem : (s : Text) → trim_right (trim_right s) ≡ trim_right s
unfolding trim_right
trim_right_idem [] = refl
trim_right_idem (c ∷ s) = ground (arith, trim_right_idem s)

strip_left : (s : Text) → trim_left (trim_right (trim_left s)) ≡ trim_right (trim_left s)
unfolding trim_left trim_right
strip_left [] = refl
strip_left (c ∷ s) = ground (arith, strip_left s)

-- What `strip` returns has no space at either end.
pub strip_trimmed : (s : Text) → (trim_left (strip s) ≡ strip s) × (trim_right (strip s) ≡ strip s)
unfolding strip
strip_trimmed s = (strip_left s, trim_right_idem (trim_left s))

-- `..` is in no front part of a text without it.
has_dotdot-take : (n : ℕ) (s : Text) → has_dotdot s ≡ false → has_dotdot (take n s) ≡ false
unfolding has_dotdot
has_dotdot-take zero s h = refl
has_dotdot-take (suc n) [] h = refl
has_dotdot-take (suc zero) (c ∷ []) h = ground arith
has_dotdot-take (suc zero) (c ∷ d ∷ s) h = ground arith
has_dotdot-take (suc (suc n)) (c ∷ []) h = ground arith
has_dotdot-take (suc (suc n)) (c ∷ d ∷ s) h = ground (arith, has_dotdot-take (suc n) (d ∷ s))

-- A cut to two bytes or more keeps the first byte, and whether there is one.
take_head :
    (n : ℕ) (s : Text)
    → (is_empty (take (suc n) s) ≡ is_empty s) × (first (take (suc n) s) ≡ first s)
take_head n [] = (refl, refl)
take_head n (c ∷ s) = (refl, refl)

pub fit_head :
    (n : ℕ) (s : Text)
    → (is_empty (fit (suc (suc n)) s) ≡ is_empty s) × (first (fit (suc (suc n)) s) ≡ first s)
unfolding fit
fit_head n s = let e : suc (suc n) - 1 ≡ suc n = omega arith in rw e (take_head n s)

pub has_dotdot-fit : (n : ℕ) (s : Text) → has_dotdot s ≡ false → has_dotdot (fit n s) ≡ false
unfolding fit
has_dotdot-fit n s h = has_dotdot-take (n - 1) s h
