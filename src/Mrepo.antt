-- ===== src/Mrepo.antt =====
-- mbroker/client/mrepo.c, a client of the same broker in one function. What it repeats of main.c word for word (the
-- checks of a field, the request, the commands of a prebuilt sandbox and their log) is taken from Client.
mod Simulation
mod Rules
mod Agreement
mod Prepared
mod Equal
mod Examples
use aiomb.Prelude.{
  ℕ, List, [], ◌∷◌, ◌++◌, Bool, true, false, not, ◌||◌, ◌&&◌, Option, none, some, Text, codes,
  text_eq, is_empty, leb, length, ◌==◌, if◌then◌else◌,
}
use aiomb.Broker.{Cmd, create, destroy, Request, Reply, is_create}
use aiomb.Client.{
  CmdContext, defaults, prev_is, is_lowerdir, is_overlayroot, is_pbsb, is_baas_path, is_baas_ns,
  command_of, is_set, names_sandbox, argument, sandbox_path, reversed,
}
use aiomb.Client.Prepare.{overlayroot_field, lowerdir_field, filled}
use aiomb.Client.Run.{
  Act, system, logged, Run, pure, lift, ◌>>=◌, ◌>>◌, emit, require, checked, ensure_tmp_log_mode,
  is_path_mounted,
}
use aiomb.Client.Commands.{
  Host, is_name_byte, all_bytes, log_line, redirected, run_logged, baas_mount, create_log,
  createvol, edit, clone_prebuilt, destroy_log, destroypod, send_request_to_daemon, ended,
}

-- The local variables that the options set; `override_uid_explicit` is `none` for -1.
pub record Options : Type 0 where
  pub context : CmdContext
  pub override_uid_explicit : Option Bool

abbrev pub start : Options
start = record { context = defaults; override_uid_explicit = none }

pub data Step : Type 0 where
  stop usage : Step
  one two : Options → Step

abbrev pub with_context : Options → CmdContext → Options
with_context o c = record o { context = c }

unfoldable pub option_step : Text → Option Text → Options → Step
option_step tail prev o =
    let c = o.context in
    if text_eq tail (codes "--promote")
    then one (with_context o (record c { enable_promote = true }))
    else if text_eq tail (codes "--chown-owner")
    then one (with_context o (record c { enable_chown_owner = true }))
    else if text_eq tail (codes "--override-uid")
    then one (record o { override_uid_explicit = some true })
    else if text_eq tail (codes "--no-override-uid")
    then one (record o { override_uid_explicit = some false })
    else if is_lowerdir tail || is_overlayroot tail
    then usage
    else if prev_is is_lowerdir prev
    then two (with_context o (record c { custom_lowerdir = some tail }))
    else if prev_is is_overlayroot prev
    then two (with_context o (record c { custom_overlayroot = some tail }))
    else if is_pbsb tail
    then usage
    else if prev_is is_pbsb prev
    then two (with_context o (record c { prebuild_sb = some tail }))
    else if is_baas_path tail
    then usage
    else if prev_is is_baas_path prev
    then two (with_context o (record c { baas_path = tail }))
    else if is_baas_ns tail
    then usage
    else if prev_is is_baas_ns prev
    then two (with_context o (record c { baas_ns = tail }))
    else stop

abbrev pub Left : Type 0
Left = Option (List Text × Options)

-- The loop goes on behind one argument or behind two.
abbrev pub after_step : Step → List Text → Options → (Options → Left) → (Options → Left) → Left
after_step stop left o f g = some (left, o)
after_step usage left o f g = none
after_step (one o') left o f g = f o'
after_step (two o') left o f g = g o'

-- The loop, over the arguments behind the command from the last one.
unfoldable pub parse_options : List Text → Options → Left
parse_options [] o = some ([], o)
parse_options (t ∷ []) o =
    after_step (option_step t none o) (t ∷ []) o (λ o'. some ([], o')) (λ o'. some (t ∷ [], o))
parse_options (t ∷ p ∷ more) o =
    after_step (option_step t (some p) o) (t ∷ p ∷ more) o (λ o'. parse_options (p ∷ more) o')
      (λ o'. parse_options more o')

abbrev pub is_explicit : Option Bool → Bool
is_explicit none = false
is_explicit (some b) = true

abbrev pub override_of : Cmd → Option Bool → Bool
override_of cmd none = is_create cmd
override_of cmd (some b) = b

-- The checks behind the loop, in their order, for `n` arguments left behind the command.
unfoldable pub is_refused : Cmd → Options → ℕ → Bool
is_refused cmd o n =
    let c = o.context in
    let other = not (is_create cmd) in
    (names_sandbox cmd && n == 0)
    || (not (names_sandbox cmd) && not (n == 0))
    || (c.enable_chown_owner && other)
    || (is_explicit o.override_uid_explicit && other)
    || (is_set c.custom_lowerdir && other)
    || (is_set c.prebuild_sb && is_set c.custom_lowerdir)
    || (is_create cmd && (not (is_set c.custom_lowerdir) && not (is_set c.prebuild_sb)))
    || (is_set c.prebuild_sb && other)
    || (is_set c.custom_overlayroot && other)

unfoldable pub prebuilt_lowerdir : Host → CmdContext → Text → Run Text
unfolding clone_prebuilt all_bytes
prebuilt_lowerdir h c prebuild = do
  require (all_bytes is_name_byte prebuild)
  log ← checked 512 (create_log h prebuild)
  ensure_tmp_log_mode log
  lowerdir ← checked 2048 (baas_mount prebuild)
  (if is_path_mounted h.mounts lowerdir then pure tt else clone_prebuilt h c prebuild log)
  require (h.exists lowerdir)
  pure lowerdir

-- The lower directory of the options, or the mount of the prebuilt sandbox in its place.
abbrev pub custom_lowerdir : Host → Cmd → CmdContext → Option Text → Run (Option Text)
custom_lowerdir h cmd c none = pure c.custom_lowerdir
custom_lowerdir h cmd c (some prebuild) =
    if is_create cmd
    then prebuilt_lowerdir h c prebuild >>= (λ lowerdir. pure (some lowerdir))
    else pure c.custom_lowerdir

-- The log and the command of a destroy: the command is run at once.
unfoldable pub destroy_volume : Host → Text → Text → Run (Unit {0})
destroy_volume h log cmd = do
  ensure_tmp_log_mode log
  checked 4096 cmd
  (if h.opens_first
      then ensure_tmp_log_mode log >> emit (logged log (log_line h.first_time cmd))
      else pure tt)
  exec_cmd ← checked 4608 (redirected cmd log)
  emit (system exec_cmd)

unfoldable pub destroyed : Host → Reply → Text → List Act → List Act
unfolding destroy_volume
destroyed h rep baas_path t =
    let log = destroy_log h rep.prebuild_sb in
    let baas = if is_empty rep.baas_path then baas_path else rep.baas_path in
    if is_empty rep.prebuild_sb
    then t
    else if leb 512 (length log)
    then t
    else (destroy_volume h log (destroypod baas rep.prebuild_sb) t).1

abbrev pub after_reply : Host → CmdContext → Reply → Cmd → Run (Unit {0})
after_reply h c rep destroy t = (some tt, destroyed h rep c.baas_path t)
after_reply h c rep _ t = (some tt, t)

unfoldable pub finish : Host → Cmd → CmdContext → Reply → Run (Unit {0})
unfolding destroyed
finish h cmd c rep = require (rep.status == 0) >> after_reply h c rep cmd

-- main from its checks on
unfoldable pub run_command : Host → Text → List Text → Cmd → List Text × Options → Run (Unit {0})
unfolding prebuilt_lowerdir finish
run_command h cwd rest cmd (left, o) =
    let c = record o.context { enable_override_uid = override_of cmd o.override_uid_explicit } in
    do
      require (not (is_refused cmd o (length left)))
      overlayroot ← lift (overlayroot_field c.custom_overlayroot)
      path ← lift (sandbox_path cmd cwd (argument rest))
      source ← custom_lowerdir h cmd c c.prebuild_sb
      lowerdir ← lift (lowerdir_field cwd source)
      rep ← send_request_to_daemon h (
          filled h.ids (record { cmd = cmd; context = c; sandboxname = path }) overlayroot lowerdir)
      finish h cmd c (ended rep)

abbrev pub is_info : Text → Bool
is_info word =
    (text_eq word (codes "version")
      || text_eq word (codes "--version")
      || text_eq word (codes "-v"))
    || (text_eq word (codes "help") || text_eq word (codes "--help") || text_eq word (codes "-h"))

abbrev pub dispatch : Host → Text → List Text → Option Cmd → Left → Run (Unit {0})
dispatch h cwd rest none left t = (none, t)
dispatch h cwd rest (some cmd) none t = (none, t)
dispatch h cwd rest (some cmd) (some parsed) t = run_command h cwd rest cmd parsed t

-- main, from the arguments behind the name of the program: `some tt` for the exit code 0, `none` for 1.
unfoldable pub main : Host → Text → List Text → Run (Unit {0})
unfolding run_command
main h cwd [] t = (none, t)
main h cwd (word ∷ rest) t =
    if is_info word
    then (some tt, t)
    else dispatch h cwd rest (command_of word) (parse_options (reversed [] rest) start) t
