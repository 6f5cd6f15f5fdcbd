-- ===== src/Client/Cleanup.antt =====
-- The command that mbroker/client/main.c runs after a destroy, with the names that the daemon has answered.
use mathlib.Core.Path.{subst}
use mathlib.Core.List.{append-nil}
use aiomb.Prelude.{
  codes, ℕ, List, [], ◌∷◌, ◌++◌, ◌<◌, true, false, Option, none, some, Text, ◌==◌, length, is_empty,
  length-append, leb, if◌then◌else◌, ◌≡◌, refl, sym, arith, Bool-cases, inl, inr,
}
use aiomb.CString.{strip_prefix}
use aiomb.CString.Laws.{length-fit}
use aiomb.Broker.{destroy, Reply}
use aiomb.Client.{CmdContext, Parsed}
use aiomb.Client.Run.{Act, open_mode, ◌>>=◌, ensure_tmp_log_mode}
use aiomb.Client.Commands.{
  Host, time_or, redirected, destroy_log, destroypod, launch, handle_destroy, ended, finish,
  after_reply,
}
use aiomb.Client.Steps.{commands, commands-append}

-- strftime writes into 32 bytes.
abbrev pub TimeFits : Option Text → Type 0
TimeFits none = Unit
TimeFits (some t) = length t < 32

time_fits : (o : Option Text) → TimeFits o → length (time_or "unknown" o) < 32
time_fits none h = omega arith
time_fits (some t) h = h

log_fits :
    (h : Host) (prebuild : Text)
    → TimeFits h.log_time
    → length prebuild < 256
    → length (destroy_log h prebuild) < 400
log_fits h prebuild time short =
    let t = time_fits h.log_time time in simp length-append (omega arith)

command_fits :
    (baas prebuild : Text)
    → length baas < 512
    → length prebuild < 256
    → length (destroypod baas prebuild) < 1000
command_fits baas prebuild b short = simp length-append (omega arith)

gt→leb : {a b : ℕ} → b < a → leb a b ≡ false
gt→leb h = ground arith

launch_runs :
    (h : Host) (log cmd : Text) (t : List Act)
    → ((u : List Act) → ensure_tmp_log_mode log u ≡ (some tt, u ++ open_mode log ∷ []))
    → length log < 400
    → length cmd < 1000
    → commands (launch h log cmd t).1 ≡ commands t ++ redirected cmd log ∷ []
unfolding launch ◌>>=◌
launch_runs h log cmd t tmp l c =
    let short : leb 4096 (length cmd) ≡ false = ground arith in
    let size : length (redirected cmd log) < 4608 = simp length-append (omega arith) in
    let fits : leb 4608 (length (redirected cmd log)) ≡ false = gt→leb size in
    elim (Bool-cases h.opens_first) [
      | inl e ↦ rw (tmp, short, e, tmp, fits) (simp (commands-append, append-nil) refl)
      | inr e ↦ rw (tmp, short, e, fits) (simp (commands-append, append-nil) refl)
    ]

-- The program that destroys the prebuilt sandbox: the one of the reply, if it names one.
abbrev pub baas_for : CmdContext → Reply → Text
baas_for c rep = if is_empty rep.baas_path then c.baas_path else rep.baas_path

IsTmp-destroy_log :
    (h : Host) (prebuild : Text) (t : List Act)
    → ensure_tmp_log_mode (destroy_log h prebuild) t
      ≡ (some tt, t ++ open_mode (destroy_log h prebuild) ∷ [])
unfolding ensure_tmp_log_mode strip_prefix
IsTmp-destroy_log h prebuild t = refl

handle_destroy_runs :
    (h : Host) (c : CmdContext) (rep : Reply) (t : List Act)
    → TimeFits h.log_time
    → length c.baas_path < 512
    → length rep.baas_path < 512
    → length rep.prebuild_sb < 256
    → is_empty rep.prebuild_sb ≡ false
    → commands (handle_destroy h rep c.baas_path t)
      ≡ commands t
        ++ redirected (destroypod (baas_for c rep) rep.prebuild_sb) (destroy_log h rep.prebuild_sb)
          ∷ []
unfolding handle_destroy
handle_destroy_runs h c rep t time own theirs short named =
    let log = log_fits h rep.prebuild_sb time short in
    let fits : leb 512 (length (destroy_log h rep.prebuild_sb)) ≡ false = gt→leb (omega arith) in
    let b : length (baas_for c rep) < 512 = ground arith in
    rw (named, fits)
      (launch_runs h (destroy_log h rep.prebuild_sb) (destroypod (baas_for c rep) rep.prebuild_sb) t
        (IsTmp-destroy_log h rep.prebuild_sb) log
        (command_fits (baas_for c rep) rep.prebuild_sb b short))

-- After a destroy with success the client has one command for launch_detached_command to give to a shell: the
-- program of the daemon's answer, or of --baas-path where it names none, then " destroypod -s ", the name of the
-- prebuilt sandbox as it stands in the answer, " --skipauth", and the log with that name in it again. Whatever bytes
-- the program and the name hold, none is quoted. This supposes that the answer names a prebuilt sandbox, and that
-- --baas-path has less than 512 bytes; that the forks of launch_detached_command succeed is not said.
pub finish_runs :
    (h : Host) (p : Parsed) (rep : Reply)
    → TimeFits h.log_time
    → length p.context.baas_path < 512
    → p.cmd ≡ destroy
    → rep.status ≡ 0
    → is_empty (ended rep).prebuild_sb ≡ false
    → commands (finish h p (ended rep) []).1
      ≡ ((baas_for p.context (ended rep)
            ++ codes " destroypod -s "
            ++ (ended rep).prebuild_sb
            ++ codes " --skipauth")
          ++ codes " >> "
          ++ (codes "/tmp/mrepo_destroypod_"
              ++ (ended rep).prebuild_sb
              ++ codes "_"
              ++ time_or "unknown" h.log_time
              ++ codes ".log")
          ++ codes " 2>&1")
        ∷ []
unfolding finish ◌>>=◌
finish_runs h p rep time own is ok named =
    let ok' : ((ended rep).status == 0) ≡ true = ground arith in
    let run =
      handle_destroy_runs h p.context (ended rep) [] time own
        (length-fit 512 rep.baas_path (omega arith)) (length-fit 256 rep.prebuild_sb (omega arith))
        named in
    rw ok' (
      subst
        (λ k.
          commands (after_reply h p.context (ended rep) k []).1
          ≡ redirected (destroypod (baas_for p.context (ended rep)) (ended rep).prebuild_sb)
              (destroy_log h (ended rep).prebuild_sb)
            ∷ [])
        (sym is) run)
