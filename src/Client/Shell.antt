-- ===== src/Client/Shell.antt =====
-- The commands that mbroker/client/main.c gives to a shell, and what their text can hold.
use aiomb.Prelude.{
  ℕ, List, [], ◌∷◌, ◌++◌, Bool, true, false, ◌||◌, ◌&&◌, Option, none, some, Text, codes, All,
  All-append, ◌==◌, length, leb, if◌then◌else◌, ◌≡◌, refl, arith,
}
use mathlib.Core.Path.{subst}
use aiomb.CString.{strip_prefix}
use aiomb.Client.{CmdContext}
use aiomb.Client.Run.{
  Act, system, detached, open_mode, Run, continue, pure, ◌>>=◌, emit, require, checked,
  ensure_tmp_log_mode, is_path_mounted,
}
use aiomb.Client.Commands.{
  Host, is_name_byte, all_bytes, time_or, redirected, run_logged, baas_mount, create_log, createvol,
  edit, clone_prebuilt, handle_prebuilt, prebuilt_of, handle_create,
}

-- A byte that a shell takes as it stands, or that separates two words.
abbrev pub is_plain : ℕ → Bool
is_plain c = is_name_byte c || c == b'/' || c == b' '

abbrev pub Plain : Text → Type 0
Plain s = all_bytes is_plain s ≡ true

-- A command of plain words, with its output sent to a log with a plain name.
abbrev pub IsPlainCommand : Text → Type 0
IsPlainCommand cmd =
    (words : Text) × (log : Text) × (cmd ≡ redirected words log) × Plain words × Plain log

abbrev pub PlainAct : Act → Type 0
PlainAct (system cmd) = IsPlainCommand cmd
PlainAct (detached cmd) = IsPlainCommand cmd
PlainAct _ = Unit

-- A run that keeps the actions plain, whether it ends or fails.
record Emits {A : Type 0} (m : Run A) : Type 0 where
  at : (t : List Act) → All PlainAct t → All PlainAct (m t).1

module _ {A : Type 0} where
  Emits-pure : (a : A) → Emits (pure a)
  unfolding pure
  Emits-pure a = record { at = λ t h. h }

  Emits-if : (b : Bool) (m n : Run A) → Emits m → Emits n → Emits (if b then m else n)
  Emits-if true m n p q = p
  Emits-if false m n p q = q

module _ {A B : Type 0} where
  Emits-continue :
      (o : Option A) (f : A → Run B)
      → ((a : A) → o ≡ some a → Emits (f a))
      → (t : List Act) → All PlainAct t
      → All PlainAct (continue o f t).1
  Emits-continue none f k t h = h
  Emits-continue (some a) f k t h = (k a refl).at t h

  Emits-bind : (m : Run A) (f : A → Run B) → Emits m → ((a : A) → Emits (f a)) → Emits (m >>= f)
  unfolding ◌>>=◌
  Emits-bind m f p k = record {
    at = λ t h. Emits-continue (m t).0 f (λ a _. k a) (m t).1 (p.at t h);
  }

module _ {B : Type 0} where
  Emits-require :
      (b : Bool) (f : Unit {0} → Run B) → (b ≡ true → Emits (f tt)) → Emits (require b >>= f)
  unfolding ◌>>=◌
  Emits-require true f k = k refl
  Emits-require false f k = record { at = λ t h. h }

  -- A checked text is the text itself.
  Emits-checked : (n : ℕ) (s : Text) (f : Text → Run B) → Emits (f s) → Emits (checked n s >>= f)
  unfolding ◌>>=◌
  Emits-checked n s f k = record {
    at = λ t.
        Emits-continue (if leb n (length s) then none else some s) f
          (λ a e. let same : s ≡ a = ground arith in subst (λ x. Emits (f x)) same k) t;
  }

Emits-ensure : (b : Bool) → Emits (require b)
unfolding require
Emits-ensure b = record { at = λ t h. h }

Emits-emit : (a : Act) → PlainAct a → Emits (emit a)
unfolding emit
Emits-emit a p = record { at = λ t h. All-append PlainAct t (a ∷ []) h (p, tt) }

Emits-log_mode : (log : Text) → Emits (ensure_tmp_log_mode log)
unfolding ensure_tmp_log_mode
Emits-log_mode log = record {
  at = λ t h.
      elim (strip_prefix (codes "/tmp/") log)
        as (λ (o : Option Text).
          All PlainAct
            (elim o as (λ _. Option (Unit {0}) × List Act) [
              | none ↦ (some tt, t)
              | some _ ↦ (some tt, t ++ open_mode log ∷ [])
            ]).1) [ none ↦ h | some rest ↦ All-append PlainAct t (open_mode log ∷ []) h (tt, tt) ];
}

all_bytes-append :
    (p : ℕ → Bool) (s t : Text) → all_bytes p (s ++ t) ≡ (all_bytes p s && all_bytes p t)
unfolding all_bytes
all_bytes-append p [] t = refl
all_bytes-append p (c ∷ s) t = ground (arith, all_bytes-append p s t)

name-Plain : (s : Text) → all_bytes is_name_byte s ≡ true → Plain s
unfolding all_bytes
name-Plain [] h = refl
name-Plain (c ∷ s) h = ground (arith, name-Plain s)

-- What the lemmas below suppose of the user's own options and of the text of the time.
abbrev pub TimeIsPlain : Option Text → Type 0
TimeIsPlain none = Unit
TimeIsPlain (some t) = Plain t

time-Plain : (o : Option Text) → TimeIsPlain o → Plain (time_or "unknown" o)
unfolding all_bytes
time-Plain none h = refl
time-Plain (some t) h = h

createvol-Plain :
    (c : CmdContext) (prebuild : Text)
    → Plain c.baas_path
    → Plain c.baas_ns
    → all_bytes is_name_byte prebuild ≡ true
    → Plain (createvol c prebuild)
unfolding all_bytes
createvol-Plain c prebuild path ns n = simp (all_bytes-append, path, ns, name-Plain prebuild n) refl

edit-Plain :
    (c : CmdContext) (prebuild : Text)
    → Plain c.baas_path
    → all_bytes is_name_byte prebuild ≡ true
    → Plain (edit c prebuild)
unfolding all_bytes
edit-Plain c prebuild path n = simp (all_bytes-append, path, name-Plain prebuild n) refl

create_log-Plain :
    (h : Host) (prebuild : Text)
    → TimeIsPlain h.log_time
    → all_bytes is_name_byte prebuild ≡ true
    → Plain (create_log h prebuild)
unfolding all_bytes
create_log-Plain h prebuild time n =
    simp (all_bytes-append, time-Plain h.log_time time, name-Plain prebuild n) refl

module _ (h : Host) (c : CmdContext) (path : Plain c.baas_path) (ns : Plain c.baas_ns)
    (time : TimeIsPlain h.log_time) where
  run_logged-Plain :
      (stamp : Option Text) (opens : Bool) (log cmd : Text)
      → Plain log
      → Plain cmd
      → Emits (run_logged h stamp opens log cmd)
  unfolding run_logged
  run_logged-Plain stamp opens log cmd l p = Emits-require opens _ (λ _.
      Emits-bind _ _ (Emits-log_mode log) (λ _. Emits-bind _ _ (Emits-emit _ tt) (λ _.
        Emits-checked 4608 (redirected cmd log) _
          (Emits-bind _ _ (Emits-emit _ (cmd, log, refl, p, l)) (λ _. Emits-ensure _)))))

  clone_prebuilt-Plain :
      (prebuild log : Text)
      → all_bytes is_name_byte prebuild ≡ true
      → Plain log
      → Emits (clone_prebuilt h c prebuild log)
  unfolding clone_prebuilt
  clone_prebuilt-Plain prebuild log n l = Emits-checked 4096 (createvol c prebuild) _ (
      Emits-bind _ _
        (run_logged-Plain h.first_time h.opens_first log _ l (createvol-Plain c prebuild path ns n))
        (λ _.
          Emits-checked 4096 (edit c prebuild) _
            (run_logged-Plain h.second_time h.opens_second log _ l (edit-Plain c prebuild path n))))

  handle_prebuilt-Plain : (prebuild : Text) → Emits (handle_prebuilt h c prebuild)
  unfolding handle_prebuilt
  handle_prebuilt-Plain prebuild = Emits-require (all_bytes is_name_byte prebuild) _ (λ n.
      let l : Plain (create_log h prebuild) = create_log-Plain h prebuild time n in
      Emits-checked 512 (create_log h prebuild) _ (
        Emits-bind _ _ (Emits-log_mode _) (λ _. Emits-checked 2048 (baas_mount prebuild) _ (
          Emits-bind _ _
            (Emits-if (is_path_mounted h.mounts (baas_mount prebuild)) _ _ (Emits-pure tt)
              (clone_prebuilt-Plain prebuild (create_log h prebuild) n l))
            (λ _. Emits-bind _ _ (Emits-ensure _) (λ _. Emits-pure _))))))

  -- Where the user's own --baas-path and --baas-ns are plain, every command that handle_create runs, whether it
  -- succeeds or fails, is a command of plain words with its output sent to a log with a plain name, whatever the
  -- name of the prebuilt sandbox is: no byte of it is taken by the shell for anything else.
  pub handle_create-Plain : All PlainAct (handle_create h c []).1
  unfolding handle_create
  handle_create-Plain =
      elim c.prebuild_sb as (λ (o : Option Text). All PlainAct (prebuilt_of h c o []).1) [
        | none ↦ tt
        | some prebuild ↦ (handle_prebuilt-Plain prebuild).at [] tt
      ]
