-- ===== src/Client/Accepted.antt =====
-- What a command line that mbroker/client/main.c accepts satisfies.
use aiomb.Prelude.{
  ℕ, ◌<◌, List, [], ◌∷◌, ◌++◌, true, false, ◌||◌, not, none, some, Text, ◌==◌, length, ◌≡◌, refl,
  inl, inr, Bool-cases, Option-cases, arith,
}
use mathlib.Core.Path.{subst}
use mathlib.Core.Option.{some-injective}
use aiomb.CString.{first}
use aiomb.Broker.{Cmd, create, destroy, refresh, sandbox_list, recover, unknown, is_create}
use aiomb.Client.{
  CmdContext, defaults, is_set, names_sandbox, is_refused, argument, sandbox_path, Parsed,
  with_override, checked, reversed, parse_options, command_of, parse_arguments,
}

-- A create has one source for its lower directories, and overrides the user; the other commands have none
-- of the four options that is_refused looks for; a sandbox is named by an absolute path that fits its field.
pub record IsAccepted (p : Parsed) : Type 0 where
  pub source :
      is_create p.cmd ≡ true → is_set p.context.custom_lowerdir ≡ not (is_set p.context.prebuild_sb)
  pub override : is_create p.cmd ≡ true → p.context.enable_override_uid ≡ true
  pub no_options :
      is_create p.cmd ≡ false
      → (p.context.enable_chown_owner
          || (is_set p.context.custom_lowerdir
              || (is_set p.context.prebuild_sb || is_set p.context.custom_overlayroot)))
        ≡ false
  pub absolute : names_sandbox p.cmd ≡ true → (first p.sandboxname == b'/') ≡ true
  pub fits : length p.sandboxname < 2048

source_of :
    (cmd : Cmd) (c : CmdContext) (n : ℕ)
    → is_refused cmd c n ≡ false
    → (is_create cmd ≡ true → is_set c.custom_lowerdir ≡ not (is_set c.prebuild_sb))
      × (is_create cmd ≡ false
          → (c.enable_chown_owner
              || (is_set c.custom_lowerdir
                  || (is_set c.prebuild_sb || is_set c.custom_overlayroot)))
            ≡ false)
unfolding is_refused
source_of cmd c n h = (λ e. ground arith, λ e. ground arith)

first-append : (a b : Text) → (first a == b'/') ≡ true → (first (a ++ b) == b'/') ≡ true
first-append [] b h = ground arith
first-append (x ∷ a) b h = h

path_of :
    (cmd : Cmd) (cwd arg path : Text)
    → (first cwd == b'/') ≡ true
    → sandbox_path cmd cwd arg ≡ some path
    → (names_sandbox cmd ≡ true → (first path == b'/') ≡ true) × (length path < 2048)
unfolding sandbox_path
path_of cmd cwd arg path abs h = ground (arith, first-append cwd (b'/' ∷ arg) abs)

accepted :
    (cmd : Cmd) (c : CmdContext) (path : Text)
    → (is_create cmd ≡ true → is_set c.custom_lowerdir ≡ not (is_set c.prebuild_sb))
      × (is_create cmd ≡ false
          → (c.enable_chown_owner
              || (is_set c.custom_lowerdir
                  || (is_set c.prebuild_sb || is_set c.custom_overlayroot)))
            ≡ false)
    → (names_sandbox cmd ≡ true → (first path == b'/') ≡ true) × (length path < 2048)
    → IsAccepted (record { cmd = cmd; context = with_override cmd c; sandboxname = path })
accepted create c path (s, n) (a, f) = record {
  source = s;
  override = λ e. refl;
  no_options = λ e. ground arith;
  absolute = a;
  fits = f;
}
accepted destroy c path (s, n) (a, f) = record {
  source = s;
  override = λ e. ground arith;
  no_options = n;
  absolute = a;
  fits = f;
}
accepted refresh c path (s, n) (a, f) = record {
  source = s;
  override = λ e. ground arith;
  no_options = n;
  absolute = a;
  fits = f;
}
accepted sandbox_list c path (s, n) (a, f) = record {
  source = s;
  override = λ e. ground arith;
  no_options = n;
  absolute = a;
  fits = f;
}
accepted recover c path (s, n) (a, f) = record {
  source = s;
  override = λ e. ground arith;
  no_options = n;
  absolute = a;
  fits = f;
}
accepted (unknown k) c path (s, n) (a, f) = record {
  source = s;
  override = λ e. ground arith;
  no_options = n;
  absolute = a;
  fits = f;
}

checked-IsAccepted :
    (cwd : Text) (cmd : Cmd) (rest left : List Text) (c : CmdContext) (p : Parsed)
    → (first cwd == b'/') ≡ true
    → checked cwd cmd rest (some (left, c)) ≡ some p
    → IsAccepted p
unfolding checked
checked-IsAccepted cwd cmd rest left c p abs h =
    elim (Bool-cases (is_refused cmd c (length left))) [
      | inl e ↦ let wrong : none ≡ some p = (rw e at h) in ground arith
      | inr e ↦ elim (Option-cases (sandbox_path cmd cwd (argument rest))) [
        | inl f ↦ let wrong : none ≡ some p = (rw (e, f, checked) at h) in ground arith
        | inr (path, f) ↦
            let made : Parsed = record {
              cmd = cmd;
              context = with_override cmd c;
              sandboxname = path;
            } in
            let same : made ≡ p = some-injective made p (rw (e, f, checked) at h) in
            subst IsAccepted same (
              accepted cmd c path (source_of cmd c (length left) e)
                (path_of cmd cwd (argument rest) path abs f))
      ]
    ]

-- From an absolute working directory, every command line that parse_arguments accepts has one source of lower
-- directories for a create, and an absolute path of less than 2048 bytes for its sandbox; a create has the override
-- of the user on, whatever its options say; another command than create has no --chown-owner, no lower directory,
-- no prebuilt sandbox and no --overlayroot. Of the other options of a create, --promote, --override-uid and
-- --baas-path among them, nothing is said.
pub parse_arguments-IsAccepted :
    (cwd : Text) (args : List Text) (p : Parsed)
    → (first cwd == b'/') ≡ true
    → parse_arguments cwd args ≡ some p
    → IsAccepted p
unfolding parse_arguments checked
parse_arguments-IsAccepted cwd [] p abs h = ground arith
parse_arguments-IsAccepted cwd (word ∷ rest) p abs h = elim (Option-cases (command_of word)) [
  | inl e ↦ let wrong : none ≡ some p = (rw (e, parse_arguments) at h) in ground arith
  | inr (cmd, e) ↦ elim (Option-cases (parse_options (reversed [] rest) defaults)) [
    | inl f ↦ let wrong : none ≡ some p = (rw (e, f, parse_arguments) at h) in ground arith
    | inr ((left, c), f) ↦
        checked-IsAccepted cwd cmd rest left c p abs (rw (e, f, parse_arguments) at h)
  ]
]
