-- ===== src/Mrepo/Prepared.antt =====
-- main of mbroker/client/mrepo.c against main of main.c, behind the checks of the command line.
use aiomb.Prelude.{
  List, [], false, ◌&&◌, Option, none, some, Text, length, leb, ◌≡◌, refl, sym, ap, ◌∙◌, arith,
  Bool-cases, Option-cases, inl, inr,
}
use mathlib.Core.Path.{subst}
use aiomb.Broker.{Cmd, create, destroy, refresh, sandbox_list, recover, unknown, is_create, Request}
use aiomb.Client.{CmdContext, Parsed, is_set, with_override}
use aiomb.Client.Prepare.{prepare_mount_request, filled, overlayroot_field, lowerdir_field}
use aiomb.Client.Run.{Act, Run, pure, lift, ◌>>=◌}
use aiomb.Client.Commands.{
  baas_mount, at_lowerdir, Host, handle_create, handle_prebuilt, with_prebuilt,
  send_request_to_daemon, ended,
}
use aiomb.Client.Commands
use aiomb.CString.{has_byte}
use aiomb.CString.Laws.{fit-of_fits}
use aiomb.Client.Success.{handle_prebuilt_done}
use aiomb.Client.Steps.{bind-known, bind-failed, lift-value, pure-value}
use aiomb.Mrepo.{prebuilt_lowerdir, custom_lowerdir, finish}
use aiomb.Mrepo.Rules.{is_destroy, as_mrepo, now-false, Agrees, Agrees-bind}
use aiomb.Mrepo.Agreement.{send-Agrees, finish-Agrees}

-- main.c behind its command line.
abbrev pub after_parse : Host → Text → Option Parsed → Run (Unit {0})
after_parse h cwd o = do
  p ← lift o
  r ← lift (prepare_mount_request cwd h.ids p)
  r' ← with_prebuilt h p r
  rep ← send_request_to_daemon h r'
  Commands.finish h p (ended rep)

abbrev pub exchanged : Host → Parsed → Request → Run (Unit {0})
exchanged h p r = send_request_to_daemon h r >>= λ rep. Commands.finish h p (ended rep)

exchanged-Agrees :
    (h : Host) (p : Parsed) (r : Request)
    → Agrees
        (is_destroy p.cmd)
        (exchanged h p r)
        (send_request_to_daemon h r >>= (λ rep. finish h p.cmd p.context (ended rep)))
exchanged-Agrees h p r =
    Agrees-bind (is_destroy p.cmd) _ _ _ _ (send-Agrees (is_destroy p.cmd) h r)
      (λ rep. finish-Agrees h p (ended rep))

-- The override that mrepo.c sets is that of main.c.
pub context_same :
    (cmd : Cmd) (c : CmdContext)
    → c.enable_override_uid ≡ false
    → Path CmdContext (record c { enable_override_uid = is_create cmd }) (with_override cmd c)
context_same create c off = refl
context_same destroy c off = ap (λ b. record c { enable_override_uid = b }) (sym off)
context_same refresh c off = ap (λ b. record c { enable_override_uid = b }) (sym off)
context_same sandbox_list c off = ap (λ b. record c { enable_override_uid = b }) (sym off)
context_same recover c off = ap (λ b. record c { enable_override_uid = b }) (sym off)
context_same (unknown n) c off = ap (λ b. record c { enable_override_uid = b }) (sym off)

module _ (h : Host) (cwd : Text) (rest : List Text) where
  -- mrepo.c behind its checks, with the path and the override root known.
  abbrev pub sourced : Parsed → Text → Run (Unit {0})
  sourced p overlayroot = do
    source ← custom_lowerdir h p.cmd p.context p.context.prebuild_sb
    lowerdir ← lift (lowerdir_field cwd source)
    rep ← send_request_to_daemon h (filled h.ids p overlayroot lowerdir)
    finish h p.cmd p.context (ended rep)

  abbrev pub prepared : Parsed → Run (Unit {0})
  prepared p = do
    r ← lift (prepare_mount_request cwd h.ids p)
    r' ← with_prebuilt h p r
    exchanged h p r'

  plain_lowerdir :
      (cmd : Cmd) (c : CmdContext) (o : Option Text)
      → (is_create cmd && is_set o) ≡ false
      → custom_lowerdir h cmd c o ≡ pure c.custom_lowerdir
  plain_lowerdir cmd c none e = refl
  plain_lowerdir cmd c (some prebuild) e =
      let other : is_create cmd ≡ false = ground arith in rw other refl

  pub prepared-failed :
      (p : Parsed)
      → overlayroot_field p.context.custom_overlayroot ≡ none
      → prepare_mount_request cwd h.ids p ≡ none
  unfolding prepare_mount_request
  prepared-failed p e = rw (e, prepare_mount_request) refl

  prepared-short :
      (p : Parsed) (o : Text)
      → overlayroot_field p.context.custom_overlayroot ≡ some o
      → lowerdir_field cwd p.context.custom_lowerdir ≡ none
      → prepare_mount_request cwd h.ids p ≡ none
  unfolding prepare_mount_request
  prepared-short p o e e' = rw (e, prepare_mount_request, e') refl

  prepared-filled :
      (p : Parsed) (o l : Text)
      → overlayroot_field p.context.custom_overlayroot ≡ some o
      → lowerdir_field cwd p.context.custom_lowerdir ≡ some l
      → prepare_mount_request cwd h.ids p ≡ some (filled h.ids p o l)
  unfolding prepare_mount_request
  prepared-filled p o l e e' = rw (e, prepare_mount_request, e') refl

  with_prebuilt-plain :
      (p : Parsed) (r : Request)
      → (is_create p.cmd && is_set p.context.prebuild_sb) ≡ false
      → with_prebuilt h p r ≡ pure r
  unfolding with_prebuilt
  with_prebuilt-plain p r e = rw e refl

  -- Without a prebuilt sandbox, or where it is not used.
  pub plain-prepared :
      (p : Parsed) (overlayroot : Text)
      → overlayroot_field p.context.custom_overlayroot ≡ some overlayroot
      → (is_create p.cmd && is_set p.context.prebuild_sb) ≡ false
      → sourced p overlayroot [] ≡ as_mrepo p.cmd (prepared p [])
  plain-prepared p overlayroot o plain =
      let c = p.context in
      let got = pure-value _ _ [] (plain_lowerdir p.cmd c c.prebuild_sb plain) in
      elim (Option-cases (lowerdir_field cwd c.custom_lowerdir)) [
        | inl e ↦
            bind-known _ _ [] got
            ∙ bind-failed _ _ [] (lift-value _ _ [] e)
            ∙ ap (as_mrepo p.cmd)
                (sym (bind-failed _ _ [] (lift-value _ _ [] (prepared-short p overlayroot o e))))
        | inr (l, e) ↦
            let r = filled h.ids p overlayroot l in
            bind-known _ _ [] got
            ∙ bind-known _ _ [] (lift-value _ _ [] e)
            ∙ (exchanged-Agrees h p r).at []
            ∙ ap (as_mrepo p.cmd) (
                sym (
                  bind-known _ _ [] (lift-value _ _ [] (prepared-filled p overlayroot l o e))
                  ∙ bind-known _ _ [] (pure-value _ _ [] (with_prebuilt-plain p r plain))))
      ]

  mount_field :
      (prebuild : Text)
      → leb 2048 (length (baas_mount prebuild)) ≡ false
      → lowerdir_field cwd (some (baas_mount prebuild)) ≡ some (baas_mount prebuild)
  unfolding lowerdir_field
  mount_field prebuild short = elim (Bool-cases (has_byte b':' (baas_mount prebuild))) [
    | inl e ↦ rw (e, short) refl
    | inr e ↦ rw (e, short) refl
  ]

  prebuilt-handled :
      (c : CmdContext) (prebuild : Text)
      → prebuilt_lowerdir h c prebuild ≡ handle_prebuilt h c prebuild
  unfolding prebuilt_lowerdir handle_prebuilt
  prebuilt-handled c prebuild = refl

  create-prepared :
      (c : CmdContext) (path prebuild : Text) (r : Request)
      → c.prebuild_sb ≡ some prebuild
      → with_prebuilt h (record { cmd = create; context = c; sandboxname = path }) r
        ≡ (handle_prebuilt h c prebuild >>= (λ lowerdir. pure (at_lowerdir lowerdir r)))
  unfolding with_prebuilt handle_create
  create-prepared c path prebuild r e = rw e refl

  mount_request :
      (p : Parsed) (overlayroot prebuild : Text)
      → leb 2048 (length (baas_mount prebuild)) ≡ false
      → at_lowerdir (baas_mount prebuild) (filled h.ids p overlayroot [])
        ≡ filled h.ids p overlayroot (baas_mount prebuild)
  mount_request p overlayroot prebuild short =
      ap (filled h.ids p overlayroot) (fit-of_fits 2048 (baas_mount prebuild) (ground arith))

  no_source : lowerdir_field cwd none ≡ some []
  unfolding lowerdir_field
  no_source = refl

  -- With one.
  module _ (c : CmdContext) (path overlayroot prebuild : Text)
      (o : overlayroot_field c.custom_overlayroot ≡ some overlayroot)
      (named : c.prebuild_sb ≡ some prebuild) (unset : c.custom_lowerdir ≡ none) where
    abbrev p : Parsed
    p = record { cmd = create; context = c; sandboxname = path }

    abbrev t1 : List Act
    t1 = (handle_prebuilt h c prebuild []).1

    custom :
        custom_lowerdir h create c c.prebuild_sb
        ≡ (handle_prebuilt h c prebuild >>= (λ l. pure (some l)))
    custom =
        ap (custom_lowerdir h create c) named
        ∙ ap (λ (m : Run Text). m >>= (λ l. pure (some l))) (prebuilt-handled c prebuild)

    request : prepare_mount_request cwd h.ids p ≡ some (filled h.ids p overlayroot [])
    request = prepared-filled p overlayroot [] o (ap (lowerdir_field cwd) unset ∙ no_source)

    failed-prepared :
        handle_prebuilt h c prebuild [] ≡ (none, t1)
        → sourced p overlayroot [] ≡ as_mrepo create (prepared p [])
    failed-prepared e =
        bind-failed _ _ [] (ap (λ (m : Run (Option Text)). m []) custom ∙ bind-failed _ _ [] e)
        ∙ ap (λ l. (none, l)) (sym (now-false t1))
        ∙ ap (as_mrepo create) (
            sym (
              bind-known _ _ [] (lift-value _ _ [] request)
              ∙ bind-failed _ _ [] (
                  ap (λ (m : Run Request). m []) (create-prepared c path prebuild _ named)
                  ∙ bind-failed _ _ [] e)))

    done-prepared :
        leb 2048 (length (baas_mount prebuild)) ≡ false
        → handle_prebuilt h c prebuild [] ≡ (some (baas_mount prebuild), t1)
        → sourced p overlayroot [] ≡ as_mrepo create (prepared p [])
    unfolding pure
    done-prepared short e =
        let r = filled h.ids p overlayroot (baas_mount prebuild) in
        let agreed =
          subst
            (λ (u : List Act).
              (send_request_to_daemon h r >>= (λ rep. finish h create c (ended rep))) u
              ≡ as_mrepo create (exchanged h p r t1))
            (now-false t1) ((exchanged-Agrees h p r).at t1) in
        bind-known _ _ [] (ap (λ (m : Run (Option Text)). m []) custom ∙ bind-known _ _ [] e)
        ∙ bind-known _ _ t1 (lift-value _ _ t1 (mount_field prebuild short))
        ∙ agreed
        ∙ ap (as_mrepo create) (
            sym (
              bind-known _ _ [] (lift-value _ _ [] request)
              ∙ bind-known _ _ [] (
                  ap (λ (m : Run Request). m []) (create-prepared c path prebuild _ named)
                  ∙ bind-known _ _ [] e)
              ∙ ap (λ x. exchanged h p x t1) (mount_request p overlayroot prebuild short)))

    pub prebuilt-prepared : sourced p overlayroot [] ≡ as_mrepo create (prepared p [])
    prebuilt-prepared = elim (Option-cases (handle_prebuilt h c prebuild []).0) [
      | inl e ↦ failed-prepared (ap (λ x. (x, t1)) e)
      | inr (l, e) ↦
          let all : handle_prebuilt h c prebuild [] ≡ (some l, t1) = ap (λ x. (x, t1)) e in
          let (is, there, short, succeeded, ran) = handle_prebuilt_done h c prebuild l [] t1 all in
          done-prepared short (all ∙ ap (λ x. (some x, t1)) is)
    ]
