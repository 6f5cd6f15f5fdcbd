-- ===== src/Mrepo/Equal.antt =====
-- main of mbroker/client/mrepo.c against main of main.c, from the command line to the exit code.
use aiomb.Prelude.{
  ℕ, List, [], ◌∷◌, true, false, not, ◌&&◌, Option, none, some, Text, All, length, ◌≡◌, refl, sym,
  ap, ◌∙◌, arith, Bool-cases, Option-cases, inl, inr,
}
use mathlib.Core.Path.{subst}
use aiomb.Broker.{Cmd, create, is_create}
use aiomb.Client
use aiomb.Client.{
  CmdContext, Parsed, defaults, is_set, sandbox_path, argument, with_override, command_of,
  parse_arguments, parse_options, reversed,
}
use aiomb.Client.Prepare.{overlayroot_field}
use aiomb.Client.Run.{Act, lift, ◌>>=◌, require}
use aiomb.Client.Commands.{Host}
use aiomb.Client.Commands
use aiomb.Client.Steps.{bind-known, bind-failed, lift-value, require-true, require-false}
use aiomb.Mrepo.{run_command, dispatch, main}
use aiomb.Mrepo.Simulation.{
  lifted, left_of, is_override, parse_options-lifted, reversed-All, is_refused-lifted,
  is_info-command, LeftOff, parse_options-LeftOff,
}
use aiomb.Mrepo.Rules.{as_mrepo}
use aiomb.Mrepo.Prepared.{
  after_parse, sourced, prepared, plain-prepared, prebuilt-prepared, context_same, prepared-failed,
}

module _ (h : Host) (cwd : Text) (rest : List Text) where
  create_eq : (cmd : Cmd) → is_create cmd ≡ true → cmd ≡ create
  create_eq create e = refl
  create_eq _ e = ground arith

  none_of : (o : Option Text) → is_set o ≡ false → o ≡ none
  none_of none e = refl
  none_of (some x) e = ground arith

  sourced-prepared :
      (cmd : Cmd) (c : CmdContext) (path overlayroot : Text)
      → overlayroot_field c.custom_overlayroot ≡ some overlayroot
      → (is_set c.prebuild_sb && is_set c.custom_lowerdir) ≡ false
      → let p : Parsed = record { cmd = cmd; context = c; sandboxname = path } in
        sourced h cwd rest p overlayroot [] ≡ as_mrepo cmd (prepared h cwd rest p [])
  sourced-prepared cmd c path overlayroot o one =
      elim (Bool-cases (is_create cmd && is_set c.prebuild_sb)) [
        | inr plain ↦
            plain-prepared h cwd rest (record { cmd = cmd; context = c; sandboxname = path })
              overlayroot o plain
        | inl both ↦ elim (Option-cases c.prebuild_sb) [
          | inl e ↦ let wrong : (is_create cmd && false) ≡ true = (rw e at both) in ground arith
          | inr (prebuild, e) ↦
              let unset : is_set c.custom_lowerdir ≡ false = (rw e at one) in
              let new : cmd ≡ create = create_eq cmd (ground arith) in
              subst
                (λ (k : Cmd).
                  let p : Parsed = record { cmd = k; context = c; sandboxname = path } in
                  sourced h cwd rest p overlayroot [] ≡ as_mrepo k (prepared h cwd rest p []))
                (sym new)
                (prebuilt-prepared h cwd rest c path overlayroot prebuild o e
                  (none_of c.custom_lowerdir unset))
        ]
      ]

  -- The context that both clients go on with.
  abbrev set : Cmd → CmdContext → CmdContext
  set cmd c = record c { enable_override_uid = is_create cmd }

  checked-refused :
      (cmd : Cmd) (left : List Text) (c : CmdContext)
      → Client.is_refused cmd c (length left) ≡ true
      → Client.checked cwd cmd rest (some (left, c)) ≡ none
  unfolding Client.checked
  checked-refused cmd left c e = rw e refl

  checked-unnamed :
      (cmd : Cmd) (left : List Text) (c : CmdContext)
      → Client.is_refused cmd c (length left) ≡ false
      → sandbox_path cmd cwd (argument rest) ≡ none
      → Client.checked cwd cmd rest (some (left, c)) ≡ none
  unfolding Client.checked
  checked-unnamed cmd left c e e' = rw (e, e') refl

  abbrev parsed : Cmd → CmdContext → Text → Parsed
  parsed cmd c path = record { cmd = cmd; context = set cmd c; sandboxname = path }

  checked-parsed :
      (cmd : Cmd) (left : List Text) (c : CmdContext) (path : Text)
      → c.enable_override_uid ≡ false
      → Client.is_refused cmd c (length left) ≡ false
      → sandbox_path cmd cwd (argument rest) ≡ some path
      → Client.checked cwd cmd rest (some (left, c)) ≡ some (parsed cmd c path)
  unfolding Client.checked
  checked-parsed cmd left c path off e e' =
      rw (e, e')
        (ap (λ (x : CmdContext). some (record { cmd = cmd; context = x; sandboxname = path }))
          (sym (context_same cmd c off)))

  one_source :
      (cmd : Cmd) (c : CmdContext) (n : ℕ)
      → Client.is_refused cmd c n ≡ false
      → (is_set c.prebuild_sb && is_set c.custom_lowerdir) ≡ false
  unfolding Client.is_refused
  one_source cmd c n e = ground arith

  main_fails :
      (cmd : Cmd) (o : Option Parsed)
      → o ≡ none
      → Path (Option (Unit {0}) × List Act) (none, []) (as_mrepo cmd (after_parse h cwd o []))
  main_fails cmd o e = ap (as_mrepo cmd) (sym (bind-failed (lift o) _ [] (lift-value o none [] e)))

  main_goes_on :
      (cmd : Cmd) (o : Option Parsed) (p : Parsed)
      → o ≡ some p
      → as_mrepo cmd (prepared h cwd rest p []) ≡ as_mrepo cmd (after_parse h cwd o [])
  main_goes_on cmd o p e =
      ap (as_mrepo cmd) (sym (bind-known (lift o) _ [] (lift-value o (some p) [] e)))

  -- Behind the check of the options.
  path-same :
      (cmd : Cmd) (left : List Text) (c : CmdContext)
      → c.enable_override_uid ≡ false
      → Client.is_refused cmd c (length left) ≡ false
      → (do
        overlayroot ← lift (overlayroot_field c.custom_overlayroot)
        path ← lift (sandbox_path cmd cwd (argument rest))
        sourced h cwd rest (parsed cmd c path) overlayroot)
          []
        ≡ as_mrepo cmd (after_parse h cwd (Client.checked cwd cmd rest (some (left, c))) [])
  path-same cmd left c off e = elim (Option-cases (sandbox_path cmd cwd (argument rest))) [
    | inl e1 ↦ elim (Option-cases (overlayroot_field c.custom_overlayroot)) [
      | inl e2 ↦
          bind-failed _ _ [] (lift-value _ _ [] e2)
          ∙ main_fails cmd _ (checked-unnamed cmd left c e e1)
      | inr (o, e2) ↦
          bind-known _ _ [] (lift-value _ _ [] e2)
          ∙ bind-failed _ _ [] (lift-value _ _ [] e1)
          ∙ main_fails cmd _ (checked-unnamed cmd left c e e1)
    ]
    | inr (path, e1) ↦
        let p = parsed cmd c path in
        let goes_on = main_goes_on cmd _ p (checked-parsed cmd left c path off e e1) in
        elim (Option-cases (overlayroot_field c.custom_overlayroot)) [
          | inl e2 ↦
              bind-failed _ _ [] (lift-value _ _ [] e2)
              ∙ ap (as_mrepo cmd)
                  (sym (bind-failed _ _ [] (lift-value _ _ [] (prepared-failed h cwd rest p e2))))
              ∙ goes_on
          | inr (o, e2) ↦
              bind-known _ _ [] (lift-value _ _ [] e2)
              ∙ bind-known _ _ [] (lift-value _ _ [] e1)
              ∙ sourced-prepared cmd (set cmd c) path o e2 (one_source cmd c (length left) e)
              ∙ goes_on
        ]
  ]

  run_command-same :
      (cmd : Cmd) (left : List Text) (c : CmdContext)
      → c.enable_override_uid ≡ false
      → run_command h cwd rest cmd (left, lifted c) []
        ≡ as_mrepo cmd (after_parse h cwd (Client.checked cwd cmd rest (some (left, c))) [])
  unfolding run_command
  run_command-same cmd left c off =
      let refused = is_refused-lifted cmd c left in
      elim (Bool-cases (Client.is_refused cmd c (length left))) [
        | inl e ↦
            bind-failed (require _) _ [] (require-false _ [] (ap not (refused ∙ e)))
            ∙ main_fails cmd _ (checked-refused cmd left c e)
        | inr e ↦
            bind-known (require _) _ [] (require-true _ [] (ap not (refused ∙ e)))
            ∙ path-same cmd left c off e
      ]

  dispatch-same :
      (cmd : Cmd) (l : Option (List Text × CmdContext))
      → LeftOff l
      → dispatch h cwd rest (some cmd) (left_of l) []
        ≡ as_mrepo cmd (after_parse h cwd (Client.checked cwd cmd rest l) [])
  unfolding Client.checked
  dispatch-same cmd none off = main_fails cmd none refl
  dispatch-same cmd (some (left, c)) off = run_command-same cmd left c off

parse_arguments-known :
    (cwd word : Text) (rest : List Text) (cmd : Cmd)
    → command_of word ≡ some cmd
    → parse_arguments cwd (word ∷ rest)
      ≡ Client.checked cwd cmd rest (parse_options (reversed [] rest) defaults)
unfolding parse_arguments
parse_arguments-known cwd word rest cmd e = rw (e, parse_arguments) refl

-- Where no argument is --override-uid or --no-override-uid, mrepo does with each command what main.c does: it sends
-- the same request, runs the same commands in the same order, writes the same log and ends with the same exit
-- code, except that the command of a destroy is run at once where main.c detaches it.
pub main-Client :
    (h : Host) (cwd word : Text) (rest : List Text) (cmd : Cmd)
    → command_of word ≡ some cmd
    → All (λ t. is_override t ≡ false) rest
    → main h cwd (word ∷ rest) [] ≡ as_mrepo cmd (Commands.main h cwd (word ∷ rest) [])
unfolding main Commands.main
main-Client h cwd word rest cmd known plain =
    let options = reversed-All (λ t. is_override t ≡ false) [] rest tt plain in
    let off = parse_options-LeftOff (reversed [] rest) defaults options refl in
    let same = dispatch-same h cwd rest cmd (parse_options (reversed [] rest) defaults) off in
    rw
      (
        is_info-command word cmd known,
        known,
        parse_options-lifted (reversed [] rest) defaults options,
      )
      (same
        ∙ ap (λ o. as_mrepo cmd (after_parse h cwd o []))
            (sym (parse_arguments-known cwd word rest cmd known)))
