-- ===== src/Client.antt =====
-- mbroker/client/main.c: the command line of the client, and the request that it makes of it. What is printed
-- is not modelled; a refused command line is `none`.
mod Accepted
pub mod Prepare
pub mod Run
pub mod Commands
mod Shell
pub mod Steps
pub mod Success
mod Cleanup
mod Sent
pub mod Examples
use aiomb.Prelude.{
  ℕ, zero, suc, ◌+◌, List, [], ◌∷◌, ◌++◌, Bool, true, false, ◌||◌, ◌&&◌, not, Option, none, some,
  Text, codes, ◌==◌, leb, ltb, length, text_eq, is_empty, if◌then◌else◌,
}
use aiomb.CString.{fit, first, has_byte}
use aiomb.Broker.{Cmd, create, destroy, refresh, sandbox_list, recover, unknown, is_create, Request}

-- struct cmd_context, less the command and the sandbox path; `none` is a null pointer.
pub record CmdContext : Type 0 where
  pub enable_promote : Bool
  pub enable_chown_owner : Bool
  pub enable_override_uid : Bool
  pub custom_lowerdir : Option Text
  pub custom_overlayroot : Option Text
  pub prebuild_sb : Option Text
  pub baas_path : Text
  pub baas_ns : Text

abbrev pub defaults : CmdContext
defaults = record {
  enable_promote = false;
  enable_chown_owner = false;
  enable_override_uid = false;
  custom_lowerdir = none;
  custom_overlayroot = none;
  prebuild_sb = none;
  baas_path = codes "/volume/baas_devops/bin/baas";
  baas_ns = codes "_cd-builder";
}

-- What one pass of the loop over the options does: it ends the loop, refuses the command line, or
-- takes one or two arguments.
pub data Step : Type 0 where
  stop usage : Step
  one two : CmdContext → Step

abbrev pub is_word : Text → Text → Text → Bool
is_word long short t = text_eq t long || text_eq t short

-- argv[effective_argc - 2], where effective_argc is 4 or more
abbrev pub prev_is : (Text → Bool) → Option Text → Bool
prev_is p none = false
prev_is p (some t) = p t

abbrev pub is_lowerdir : Text → Bool
is_lowerdir = is_word (codes "--lowerdir") (codes "-l")

abbrev pub is_overlayroot : Text → Bool
is_overlayroot = is_word (codes "--overlayroot") (codes "-p")

abbrev pub is_pbsb : Text → Bool
is_pbsb t = text_eq t (codes "-pbsb")

abbrev pub is_baas_path : Text → Bool
is_baas_path t = text_eq t (codes "--baas-path")

abbrev pub is_baas_ns : Text → Bool
is_baas_ns t = text_eq t (codes "--baas-ns")

unfoldable pub option_step : Text → Option Text → CmdContext → Step
option_step tail prev c =
    if text_eq tail (codes "--promote")
    then one (record c { enable_promote = true })
    else if text_eq tail (codes "--chown-owner")
    then one (record c { enable_chown_owner = true })
    else if text_eq tail (codes "--override-uid")
    then one (record c { enable_override_uid = true })
    else if text_eq tail (codes "--no-override-uid")
    then one (record c { enable_override_uid = false })
    else if is_lowerdir tail || is_overlayroot tail
    then usage
    else if prev_is is_lowerdir prev
    then two (record c { custom_lowerdir = some tail })
    else if prev_is is_overlayroot prev
    then two (record c { custom_overlayroot = some tail })
    else if is_pbsb tail
    then usage
    else if prev_is is_pbsb prev
    then two (record c { prebuild_sb = some tail })
    else if is_baas_path tail
    then usage
    else if prev_is is_baas_path prev
    then two (record c { baas_path = tail })
    else if is_baas_ns tail
    then usage
    else if prev_is is_baas_ns prev
    then two (record c { baas_ns = tail })
    else stop

-- The loop, over the arguments behind the command from the last one: those that are left.
unfoldable pub parse_options : List Text → CmdContext → Option (List Text × CmdContext)
parse_options [] c = some ([], c)
parse_options (t ∷ []) c = elim (option_step t none c) [
  | stop ↦ some (t ∷ [], c)
  | usage ↦ none
  | one c' ↦ some ([], c')
  | two c' ↦ some (t ∷ [], c)
]
parse_options (t ∷ p ∷ more) c =
    let rest = λ (c' : CmdContext). parse_options (p ∷ more) c' in
    let rest_of = λ (c' : CmdContext). parse_options more c' in
    elim (option_step t (some p) c) [
      | stop ↦ some (t ∷ p ∷ more, c)
      | usage ↦ none
      | one c' ↦ rest c'
      | two c' ↦ rest_of c'
    ]

unfoldable pub command_of : Text → Option Cmd
command_of word =
    if text_eq word (codes "create")
    then some create
    else if text_eq word (codes "destroy")
    then some destroy
    else if text_eq word (codes "list")
    then some sandbox_list
    else if text_eq word (codes "refresh")
    then some refresh
    else if text_eq word (codes "recover")
    then some recover
    else none

abbrev pub is_set : Option Text → Bool
is_set none = false
is_set (some t) = true

abbrev pub names_sandbox : Cmd → Bool
names_sandbox create = true
names_sandbox destroy = true
names_sandbox _ = false

-- The checks behind the loop, for `n` arguments left behind the command.
unfoldable pub is_refused : Cmd → CmdContext → ℕ → Bool
is_refused cmd c n =
    (if names_sandbox cmd then n == 0 else not (n == 0))
    || (not (is_create cmd)
        && (c.enable_chown_owner
            || (is_set c.custom_lowerdir || (is_set c.prebuild_sb || is_set c.custom_overlayroot))))
    || (is_set c.prebuild_sb && is_set c.custom_lowerdir)
    || (is_create cmd && (not (is_set c.custom_lowerdir) && not (is_set c.prebuild_sb)))

abbrev pub argument : List Text → Text
argument [] = []
argument (t ∷ ts) = t

-- The path of the sandbox, within 2047 bytes.
unfoldable pub sandbox_path : Cmd → Text → Text → Option Text
sandbox_path cmd cwd arg =
    let full = if first arg == b'/' then arg else cwd ++ b'/' ∷ arg in
    if not (names_sandbox cmd) then some [] else if leb 2048 (length full) then none else some full

pub record Parsed : Type 0 where
  pub cmd : Cmd
  pub context : CmdContext
  pub sandboxname : Text

-- A create always overrides the user.
abbrev pub with_override : Cmd → CmdContext → CmdContext
with_override cmd c = if is_create cmd then record c { enable_override_uid = true } else c

unfoldable pub checked : Text → Cmd → List Text → Option (List Text × CmdContext) → Option Parsed
checked cwd cmd rest none = none
checked cwd cmd rest (some (left, c)) =
    if is_refused cmd c (length left) then none else elim (sandbox_path cmd cwd (argument rest)) [
      | none ↦ none
      | some path ↦ some (record { cmd = cmd; context = with_override cmd c; sandboxname = path })
    ]

abbrev pub reversed : List Text → List Text → List Text
reversed acc [] = acc
reversed acc (t ∷ ts) = reversed (t ∷ acc) ts

-- parse_arguments on the arguments behind the name of the program. `version`, `help` and their options
-- are no commands, and return -1 too.
unfoldable pub parse_arguments : Text → List Text → Option Parsed
parse_arguments cwd [] = none
parse_arguments cwd (word ∷ rest) = elim (command_of word) [
  | none ↦ none
  | some cmd ↦ checked cwd cmd rest (parse_options (reversed [] rest) defaults)
]
