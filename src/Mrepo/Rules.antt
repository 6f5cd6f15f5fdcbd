-- ===== src/Mrepo/Rules.antt =====
-- When a run of mbroker/client/mrepo.c is a run of main.c with its detached command run at once.
use aiomb.Prelude.{
  ℕ, List, [], ◌∷◌, ◌++◌, Bool, true, false, Option, none, some, Text, codes, if◌then◌else◌, ◌≡◌,
  refl, sym, ap, ◌∙◌,
}
use aiomb.CString.{strip_prefix}
use aiomb.Broker.{Cmd, destroy}
use aiomb.Client.Run.{
  Act, system, detached, open_mode, logged, sent, Run, continue, pure, lift, ◌>>=◌, emit, require,
  checked, ensure_tmp_log_mode,
}

abbrev pub is_destroy : Cmd → Bool
is_destroy destroy = true
is_destroy _ = false

-- A detached command, run at once.
abbrev pub run_now : Bool → Act → Act
run_now d (system cmd) = system cmd
run_now d (detached cmd) = if d then system cmd else detached cmd
run_now d (open_mode path) = open_mode path
run_now d (logged path line) = logged path line
run_now d (sent r) = sent r

abbrev pub now : Bool → List Act → List Act
now d [] = []
now d (a ∷ t) = run_now d a ∷ now d t

-- A run of main.c as mrepo.c has it.
abbrev pub as_mrepo : {A : Type 0} → Cmd → Option A × List Act → Option A × List Act
as_mrepo cmd r = (r.0, now (is_destroy cmd) r.1)

now-append : (d : Bool) (t u : List Act) → now d (t ++ u) ≡ now d t ++ now d u
now-append d [] u = refl
now-append d (a ∷ t) u = ap (λ l. run_now d a ∷ l) (now-append d t u)

pub now-false : (t : List Act) → now false t ≡ t
now-false [] = refl
now-false (system cmd ∷ t) = ap (λ l. system cmd ∷ l) (now-false t)
now-false (detached cmd ∷ t) = ap (λ l. detached cmd ∷ l) (now-false t)
now-false (open_mode path ∷ t) = ap (λ l. open_mode path ∷ l) (now-false t)
now-false (logged path line ∷ t) = ap (λ l. logged path line ∷ l) (now-false t)
now-false (sent r ∷ t) = ap (λ l. sent r ∷ l) (now-false t)

module _ (d : Bool) where
  -- The second run is the first one, with what is detached run at once where `d` says so.
  pub record Agrees {A : Type 0} (m n : Run A) : Type 0 where
    pub at : (t : List Act) → n (now d t) ≡ ((m t).0, now d (m t).1)

  module _ {A : Type 0} where
    pub Agrees-lift : (o : Option A) → Agrees (lift o) (lift o)
    unfolding lift
    Agrees-lift o = record { at = λ t. refl }

    pub Agrees-pure : (a : A) → Agrees (pure a) (pure a)
    unfolding pure
    Agrees-pure a = record { at = λ t. refl }

    pub Agrees-if :
        (b : Bool) (m m' n n' : Run A)
        → Agrees m n
        → Agrees m' n'
        → Agrees (if b then m else m') (if b then n else n')
    Agrees-if true m m' n n' p q = p
    Agrees-if false m m' n n' p q = q

  module _ {A B : Type 0} where
    continue-Agrees :
        (o : Option A) (f g : A → Run B)
        → ((a : A) → Agrees (f a) (g a))
        → (t : List Act) → continue o g (now d t) ≡ ((continue o f t).0, now d (continue o f t).1)
    continue-Agrees none f g k t = refl
    continue-Agrees (some a) f g k t = (k a).at t

    pub Agrees-bind :
        (m n : Run A) (f g : A → Run B)
        → Agrees m n
        → ((a : A) → Agrees (f a) (g a))
        → Agrees (m >>= f) (n >>= g)
    unfolding ◌>>=◌
    Agrees-bind m n f g p k = record {
      at = λ t.
          ap (λ (r : Option A × List Act). continue r.0 g r.1) (p.at t)
          ∙ continue-Agrees (m t).0 f g k (m t).1;
    }

  pub Agrees-require : (b : Bool) → Agrees (require b) (require b)
  unfolding require
  Agrees-require b = record { at = λ t. refl }

  pub Agrees-checked : (n : ℕ) (s : Text) → Agrees (checked n s) (checked n s)
  unfolding checked
  Agrees-checked n s = record { at = λ t. refl }

  pub Agrees-emit : (a : Act) → Agrees (emit a) (emit (run_now d a))
  unfolding emit
  Agrees-emit a = record { at = λ t. ap (λ l. (some tt, l)) (sym (now-append d t (a ∷ []))) }

  pub Agrees-log_mode : (log : Text) → Agrees (ensure_tmp_log_mode log) (ensure_tmp_log_mode log)
  unfolding ensure_tmp_log_mode
  Agrees-log_mode log = record {
    at = λ t.
        elim (strip_prefix (codes "/tmp/") log)
          as (λ (o : Option Text).
            let run : Run (Unit {0}) = λ u. elim o as (λ _. Option (Unit {0}) × List Act) [
              | none ↦ (some tt, u)
              | some _ ↦ (some tt, u ++ open_mode log ∷ [])
            ] in
            run (now d t) ≡ ((run t).0, now d (run t).1)) [
              | none ↦ refl
              | some rest ↦ ap (λ l. (some tt, l)) (sym (now-append d t (open_mode log ∷ [])))
            ];
  }
