-- ===== src/Mrepo/Simulation.antt =====
-- Without an override option, mbroker/client/mrepo.c reads its options as main.c does.
use aiomb.Prelude.{
  List, [], ◌∷◌, Bool, true, false, not, ◌||◌, Option, none, some, Text, codes, text_eq, All,
  length, if◌then◌else◌, ◌≡◌, refl, sym, arith, Bool-cases, inl, inr, text_eq_sound,
}
use mathlib.Core.Path.{subst}
use aiomb.Broker.{Cmd}
use aiomb.Client.{CmdContext, is_set, names_sandbox, command_of, reversed}
use aiomb.Client
use aiomb.Mrepo.{
  Options, Step, stop, usage, one, two, option_step, Left, after_step, parse_options, is_refused,
  is_info,
}

abbrev pub lifted : CmdContext → Options
lifted c = record { context = c; override_uid_explicit = none }

abbrev step_of : Client.Step → Step
step_of Client.stop = stop
step_of Client.usage = usage
step_of (Client.one c) = one (lifted c)
step_of (Client.two c) = two (lifted c)

abbrev pub left_of : Option (List Text × CmdContext) → Left
left_of none = none
left_of (some (left, c)) = some (left, lifted c)

step_of-if :
    (b : Bool) (x y : Client.Step)
    → step_of (if b then x else y) ≡ (if b then step_of x else step_of y)
step_of-if true x y = refl
step_of-if false x y = refl

abbrev pub is_override : Text → Bool
is_override t = text_eq t (codes "--override-uid") || text_eq t (codes "--no-override-uid")

option_step-lifted :
    (t : Text) (prev : Option Text) (c : CmdContext)
    → is_override t ≡ false
    → option_step t prev (lifted c) ≡ step_of (Client.option_step t prev c)
unfolding option_step Client.option_step
option_step-lifted t prev c h =
    let no_on : text_eq t (codes "--override-uid") ≡ false = ground arith in
    let no_off : text_eq t (codes "--no-override-uid") ≡ false = ground arith in
    rw (no_on, no_off) (simp (step_of-if) refl)

after_step-lifted :
    (s : Client.Step) (left : List Text) (c : CmdContext) (f g : Options → Left)
    (f' g' : CmdContext → Option (List Text × CmdContext))
    → ((c' : CmdContext) → f (lifted c') ≡ left_of (f' c'))
    → ((c' : CmdContext) → g (lifted c') ≡ left_of (g' c'))
    → after_step (step_of s) left (lifted c) f g
      ≡ left_of (elim s as (λ _. Option (List Text × CmdContext)) [
        | Client.stop ↦ some (left, c)
        | Client.usage ↦ none
        | Client.one c' ↦ f' c'
        | Client.two c' ↦ g' c'
      ])
after_step-lifted Client.stop left c f g f' g' p q = refl
after_step-lifted Client.usage left c f g f' g' p q = refl
after_step-lifted (Client.one c') left c f g f' g' p q = p c'
after_step-lifted (Client.two c') left c f g f' g' p q = q c'

pub parse_options-lifted :
    (ts : List Text) (c : CmdContext)
    → All (λ t. is_override t ≡ false) ts
    → parse_options ts (lifted c) ≡ left_of (Client.parse_options ts c)
unfolding parse_options Client.parse_options
parse_options-lifted [] c a = refl
parse_options-lifted (t ∷ []) c a = rw (option_step-lifted t none c a.0) (
    after_step-lifted (Client.option_step t none c) (t ∷ []) c (λ o'. some ([], o'))
      (λ o'. some (t ∷ [], lifted c)) (λ c'. some ([], c')) (λ c'. some (t ∷ [], c)) (λ c'. refl)
      (λ c'. refl))
parse_options-lifted (t ∷ p ∷ more) c a = rw (option_step-lifted t (some p) c a.0) (
    after_step-lifted (Client.option_step t (some p) c) (t ∷ p ∷ more) c
      (λ o'. parse_options (p ∷ more) o') (λ o'. parse_options more o')
      (λ c'. Client.parse_options (p ∷ more) c') (λ c'. Client.parse_options more c')
      (λ c'. parse_options-lifted (p ∷ more) c' a.1) (λ c'. parse_options-lifted more c' a.1.1))

pub reversed-All :
    (P : Text → Type 0) (acc ts : List Text) → All P acc → All P ts → All P (reversed acc ts)
reversed-All P acc [] a b = a
reversed-All P acc (t ∷ ts) a b = reversed-All P (t ∷ acc) ts (b.0, a) b.1

-- The checks of the two clients agree where no override option is given.
pub is_refused-lifted :
    (cmd : Cmd) (c : CmdContext) (left : List Text)
    → is_refused cmd (lifted c) (length left) ≡ Client.is_refused cmd c (length left)
unfolding is_refused Client.is_refused
is_refused-lifted cmd c left = ground arith

-- A word that main.c takes for a command is none of those that mrepo.c answers at once.
info-no_command :
    (word key : Text) → command_of key ≡ none → text_eq word key ≡ true → command_of word ≡ none
info-no_command word key h e = subst (λ w. command_of w ≡ none) (sym (text_eq_sound word key e)) h

pub is_info-command : (word : Text) (cmd : Cmd) → command_of word ≡ some cmd → is_info word ≡ false
unfolding command_of text_eq
is_info-command word cmd h =
    let known =
      λ (key : Text) (none_of : command_of key ≡ none). info-no_command word key none_of in
    elim (Bool-cases (is_info word)) [
      | inr plain ↦ plain
      | inl info ↦
          let lost : command_of word ≡ none = ground (
            arith,
            known (codes "version") refl,
            known (codes "--version") refl,
            known (codes "-v") refl,
            known (codes "help") refl,
            known (codes "--help") refl,
            known (codes "-h") refl,
          ) in
          ground (arith, lost)
    ]

-- Without an override option the override stays off.
abbrev keeps_off : Client.Step → Bool
keeps_off Client.stop = true
keeps_off Client.usage = true
keeps_off (Client.one c) = not c.enable_override_uid
keeps_off (Client.two c) = not c.enable_override_uid

keeps_off-if :
    (b : Bool) (x y : Client.Step)
    → keeps_off (if b then x else y) ≡ (if b then keeps_off x else keeps_off y)
keeps_off-if true x y = refl
keeps_off-if false x y = refl

if-same : (b : Bool) → (if b then true else true) ≡ true
if-same true = refl
if-same false = refl

keeps_off-option_step :
    (t : Text) (prev : Option Text) (c : CmdContext)
    → is_override t ≡ false
    → c.enable_override_uid ≡ false
    → keeps_off (Client.option_step t prev c) ≡ true
unfolding Client.option_step
keeps_off-option_step t prev c h off =
    let no_on : text_eq t (codes "--override-uid") ≡ false = ground arith in
    rw no_on (simp (keeps_off-if, off, if-same) refl)

abbrev pub LeftOff : Option (List Text × CmdContext) → Type 0
LeftOff none = Unit
LeftOff (some (left, c)) = c.enable_override_uid ≡ false

after-LeftOff :
    (s : Client.Step) (left : List Text) (c : CmdContext)
    (f g : CmdContext → Option (List Text × CmdContext))
    → c.enable_override_uid ≡ false
    → keeps_off s ≡ true
    → ((c' : CmdContext) → c'.enable_override_uid ≡ false → LeftOff (f c'))
    → ((c' : CmdContext) → c'.enable_override_uid ≡ false → LeftOff (g c'))
    → LeftOff (elim s as (λ _. Option (List Text × CmdContext)) [
      | Client.stop ↦ some (left, c)
      | Client.usage ↦ none
      | Client.one c' ↦ f c'
      | Client.two c' ↦ g c'
    ])
after-LeftOff Client.stop left c f g off s p q = off
after-LeftOff Client.usage left c f g off s p q = tt
after-LeftOff (Client.one c') left c f g off s p q = p c' (ground arith)
after-LeftOff (Client.two c') left c f g off s p q = q c' (ground arith)

pub parse_options-LeftOff :
    (ts : List Text) (c : CmdContext)
    → All (λ t. is_override t ≡ false) ts
    → c.enable_override_uid ≡ false
    → LeftOff (Client.parse_options ts c)
unfolding Client.parse_options
parse_options-LeftOff [] c a off = off
parse_options-LeftOff (t ∷ []) c a off =
    after-LeftOff (Client.option_step t none c) (t ∷ []) c (λ c'. some ([], c'))
      (λ c'. some (t ∷ [], c)) off (keeps_off-option_step t none c a.0 off) (λ c' off'. off')
      (λ c' off'. off)
parse_options-LeftOff (t ∷ p ∷ more) c a off =
    after-LeftOff (Client.option_step t (some p) c) (t ∷ p ∷ more) c
      (λ c'. Client.parse_options (p ∷ more) c') (λ c'. Client.parse_options more c') off
      (keeps_off-option_step t (some p) c a.0 off)
      (λ c' off'. parse_options-LeftOff (p ∷ more) c' a.1 off')
      (λ c' off'. parse_options-LeftOff more c' a.1.1 off')
