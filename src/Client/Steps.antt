-- ===== src/Client/Steps.antt =====
-- What follows for the parts of a run of mbroker/client/main.c when the run has not failed.
use mathlib.Core.Option.{none-ne-some, some-injective}
use aiomb.Prelude.{
  ℕ, List, [], ◌∷◌, ◌++◌, Bool, true, false, Option, none, some, Text, length, leb, ◌≡◌, refl, ap,
  arith, Bool-cases, inl, inr,
}
use aiomb.Client.Run.{
  Act, system, detached, open_mode, logged, sent, Run, continue, pure, lift, ◌>>=◌, emit, require,
  checked,
}

-- The commands among the actions.
abbrev pub commands : List Act → List Text
commands [] = []
commands (system cmd ∷ t) = cmd ∷ commands t
commands (detached cmd ∷ t) = cmd ∷ commands t
commands (_ ∷ t) = commands t

module _ {A B : Type 0} where
  pub bind-eq-some :
      (m : Run A) (f : A → Run B) (t : List Act) {b : B} {t' : List Act}
      → (m >>= f) t ≡ (some b, t')
      → (a : A) × (m t ≡ (some a, (m t).1)) × (f a (m t).1 ≡ (some b, t'))
  unfolding ◌>>=◌
  bind-eq-some m f t e = after (m t).0 (m t).1 f e
    where
      after :
          (o : Option A) (u : List Act) (f : A → Run B) {b : B} {t' : List Act}
          → continue o f u ≡ (some b, t')
          → (a : A) × (Path (Option A × List Act) (o, u) (some a, u)) × (f a u ≡ (some b, t'))
      after none u f e = ground arith
      after (some a) u f e = (a, refl, e)

  pub lift-known :
      (o : Option A) (f : A → Run B) (t : List Act) {a : A} {r : Option B × List Act}
      → o ≡ some a
      → (lift o >>= f) t ≡ r
      → f a t ≡ r
  unfolding ◌>>=◌
  lift-known o f t known e = rw known at e

  pub lift-eq-some :
      (o : Option A) (f : A → Run B) (t : List Act) {b : B} {t' : List Act}
      → (lift o >>= f) t ≡ (some b, t')
      → (a : A) × (o ≡ some a) × (f a t ≡ (some b, t'))
  unfolding ◌>>=◌
  lift-eq-some none f t e = ground arith
  lift-eq-some (some a) f t e = (a, refl, e)

module _ {B : Type 0} where
  pub require-eq-some :
      (b : Bool) (f : Unit {0} → Run B) (t : List Act) {x : B} {t' : List Act}
      → (require b >>= f) t ≡ (some x, t')
      → (b ≡ true) × (f tt t ≡ (some x, t'))
  unfolding ◌>>=◌
  require-eq-some true f t e = (refl, e)
  require-eq-some false f t e = ground arith

  pub checked-eq-some :
      (n : ℕ) (s : Text) (f : Text → Run B) (t : List Act) {x : B} {t' : List Act}
      → (checked n s >>= f) t ≡ (some x, t')
      → (leb n (length s) ≡ false) × (f s t ≡ (some x, t'))
  unfolding ◌>>=◌
  checked-eq-some n s f t e = elim (Bool-cases (leb n (length s))) [
    | inl long ↦ absurd (none-ne-some _ (ap (λ (r : Option B × List Act). r.0) (rw long at e)))
    | inr fits ↦ (fits, rw fits at e)
  ]

pub emit-bind :
    {B : Type 0} (a : Act) (f : Unit {0} → Run B) (t : List Act)
    → (emit a >>= f) t ≡ f tt (t ++ a ∷ [])
unfolding ◌>>=◌
emit-bind a f t = refl

pub require_done :
    (b : Bool) (t : List Act) {t' : List Act} → require b t ≡ (some tt, t') → (b ≡ true) × (t ≡ t')
unfolding require
require_done true t e = (refl, ap (λ (r : Option (Unit {0}) × List Act). r.1) e)
require_done false t e = ground arith

pub pure_done :
    {A : Type 0} (a : A) (t : List Act) {b : A} {t' : List Act}
    → pure a t ≡ (some b, t')
    → (a ≡ b) × (t ≡ t')
unfolding pure
pure_done {A} a t {b} e = (
  some-injective a b (ap (λ (r : Option A × List Act). r.0) e),
  ap (λ (r : Option A × List Act). r.1) e,
)

pub commands-append : (a b : List Act) → commands (a ++ b) ≡ commands a ++ commands b
commands-append [] b = refl
commands-append (system cmd ∷ a) b = ap (λ (l : List Text). cmd ∷ l) (commands-append a b)
commands-append (detached cmd ∷ a) b = ap (λ (l : List Text). cmd ∷ l) (commands-append a b)
commands-append (open_mode path ∷ a) b = commands-append a b
commands-append (logged path line ∷ a) b = commands-append a b
commands-append (sent r ∷ a) b = commands-append a b

pub three : (t : List Act) (a b c : Act) → ((t ++ a ∷ []) ++ b ∷ []) ++ c ∷ [] ≡ t ++ a ∷ b ∷ c ∷ []
three [] a b c = refl
three (x ∷ t) a b c = ap (λ (l : List Act). x ∷ l) (three t a b c)

-- What a run does, from what its first part does.
module _ {A B : Type 0} where
  pub bind-known :
      (m : Run A) (f : A → Run B) {a : A} (t : List Act) {t' : List Act}
      → m t ≡ (some a, t')
      → (m >>= f) t ≡ f a t'
  unfolding ◌>>=◌
  bind-known m f t e = ap (λ (r : Option A × List Act). continue r.0 f r.1) e

  pub bind-failed :
      (m : Run A) (f : A → Run B) (t : List Act) {t' : List Act}
      → m t ≡ (none, t')
      → (m >>= f) t ≡ (none, t')
  unfolding ◌>>=◌
  bind-failed m f t e = ap (λ (r : Option A × List Act). continue r.0 f r.1) e

pub lift-value : {A : Type 0} (o o' : Option A) (t : List Act) → o ≡ o' → lift o t ≡ (o', t)
unfolding lift
lift-value o o' t e = ap (λ x. (x, t)) e

pub pure-value : {A : Type 0} (m : Run A) (a : A) (t : List Act) → m ≡ pure a → m t ≡ (some a, t)
unfolding pure
pure-value {A} m a t e = ap (λ (n : Run A). n t) e

pub require-true : (b : Bool) (t : List Act) → b ≡ true → require b t ≡ (some tt, t)
unfolding require
require-true b t e = rw e refl

pub require-false : (b : Bool) (t : List Act) → b ≡ false → require b t ≡ (none, t)
unfolding require
require-false b t e = rw e refl
