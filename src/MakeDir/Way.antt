-- ===== src/MakeDir/Way.antt =====
-- The directories that mkdir_p of mbroker/daemon/util.c has made.
use mathlib.Core.List.{append_assoc, append-nil}
use mathlib.Core.Path.{subst}
use aiomb.Prelude.{
  ℕ, List, [], ◌∷◌, ◌++◌, Bool, true, Text, ◌≡◌, sym, ap, ◌∙◌, arith, length, ◌<◌, some,
}
use mathlib.Core.Option.{some-injective}
use aiomb.CString.{fit}
use aiomb.CString.Laws.{fit-of_fits}
use aiomb.MakeDir.{strip_slash, is_made, make_from, make_all, mkdir_p}

module _ (mkdir : Text → ℕ) where
  abbrev pub Made : Text → Type 0
  Made p = is_made (mkdir p) ≡ true

  moved : (seen : Text) (c : ℕ) (m : Text) → Made ((seen ++ c ∷ []) ++ m) → Made (seen ++ c ∷ m)
  moved seen c m h = subst Made (append_assoc seen (c ∷ []) m) h

  later :
      (seen : Text) (c : ℕ) (s : Text)
      → (make_from mkdir seen (c ∷ s)).1 ≡ true
      → (make_from mkdir (seen ++ c ∷ []) s).1 ≡ true
  unfolding make_from
  later seen c s ok = ground arith

  make_from-last : (seen rest : Text) → (make_from mkdir seen rest).1 ≡ true → Made (seen ++ rest)
  unfolding make_from
  make_from-last seen [] ok = subst Made (sym (append-nil seen)) ok
  make_from-last seen (c ∷ s) ok =
      moved seen c s (make_from-last (seen ++ c ∷ []) s (later seen c s ok))

  make_from-slash :
      (seen m s : Text) → (make_from mkdir seen (m ++ b'/' ∷ s)).1 ≡ true → Made (seen ++ m)
  unfolding make_from
  make_from-slash seen [] s ok = subst Made (sym (append-nil seen)) (ground arith)
  make_from-slash seen (c ∷ m) s ok =
      moved seen c m (make_from-slash (seen ++ c ∷ []) m s (later seen c (m ++ b'/' ∷ s) ok))

-- When mkdir_p returns 0 on a path shorter than 512 bytes, the directory exists, and so does each that stands in
-- front of a slash of the path but a slash at its start or its end.
mkdir_p_lem :
    (mkdir : Text → ℕ) (b : ℕ) (path : Text) (c : ℕ) (m s : Text) (tried : List Text)
    → length (b ∷ path) < 512
    → strip_slash (b ∷ path) ≡ c ∷ (m ++ b'/' ∷ s)
    → mkdir_p mkdir (b ∷ path) ≡ some (tried, true)
    → Made mkdir (c ∷ m) × Made mkdir (strip_slash (b ∷ path))
unfolding mkdir_p
mkdir_p_lem mkdir b path c m s tried fits way done =
    let all =
      ap (λ (r : List Text × Bool). r.1)
        (some-injective (make_all mkdir (strip_slash (fit 512 (b ∷ path)))) (tried, true) done) in
    let same = fit-of_fits 512 (b ∷ path) fits in
    let ok = subst (λ t. (make_all mkdir t).1 ≡ true) (ap strip_slash same ∙ way) all in
    (
      make_from-slash mkdir (c ∷ []) m s ok,
      subst (Made mkdir) (sym way) (make_from-last mkdir (c ∷ []) (m ++ b'/' ∷ s) ok),
    )
