-- ===== src/Client/Commands.antt =====
-- handle_create, handle_destroy and main of mbroker/client/main.c. A time as text is `none` where the clock or
-- strftime fails.
use aiomb.Prelude.{
  ℕ, List, [], ◌∷◌, ◌++◌, Bool, true, ◌||◌, ◌&&◌, Option, none, some, Text, codes, is_empty, leb,
  length, ◌==◌, if◌then◌else◌,
}
use Prim.Native.String.{String}
use aiomb.CString.{fit}
use aiomb.Broker.{Cmd, destroy, Request, Reply, is_create}
use aiomb.Client.{CmdContext, Parsed, is_set, parse_arguments}
use aiomb.Client.Prepare.{Ids, prepare_mount_request}
use aiomb.Client.Run.{
  Act, system, detached, logged, sent, Run, pure, lift, ◌>>=◌, ◌>>◌, emit, require, checked,
  ensure_tmp_log_mode, is_path_mounted,
}

-- What comes of a request: the daemon is not reached, the reply cannot be read, the daemon closes the connection
-- without a reply, or it replies.
pub data Answer : Type 0 where
  unsent unread closed : Answer
  replied : Reply → Answer

-- What the client meets: the user, the times, /proc/mounts, whether the log opens for the first and the second
-- command, the results of commands, what exists, and the daemon, as far as the client hears of it.
pub record Host : Type 0 where
  pub ids : Ids
  pub log_time : Option Text
  pub first_time : Option Text
  pub second_time : Option Text
  pub mounts : Option Text
  pub opens_first : Bool
  pub opens_second : Bool
  pub result : Text → ℕ
  pub exists : Text → Bool
  pub daemon : Request → Answer

-- isalnum of an unsigned char in the C locale
abbrev pub isalnum : ℕ → Bool
isalnum c = leb b'0' c && leb c b'9' || leb b'A' c && leb c b'Z' || leb b'a' c && leb c b'z'

abbrev pub is_name_byte : ℕ → Bool
is_name_byte c = isalnum c || c == b'-' || c == b'_' || c == b'.'

unfoldable pub all_bytes : (ℕ → Bool) → Text → Bool
all_bytes p [] = true
all_bytes p (c ∷ s) = p c && all_bytes p s

abbrev pub time_or : String → Option Text → Text
time_or unknown none = codes unknown
time_or unknown (some t) = t

abbrev pub log_line : Option Text → Text → Text
log_line time cmd = codes "[" ++ time_or "unknown-time" time ++ codes "] CMD: " ++ cmd ++ 10 ∷ []

abbrev pub redirected : Text → Text → Text
redirected cmd log = cmd ++ codes " >> " ++ log ++ codes " 2>&1"

-- One command of handle_create: noted in the log, then run.
unfoldable pub run_logged : Host → Option Text → Bool → Text → Text → Run (Unit {0})
unfolding ensure_tmp_log_mode
run_logged h time opens log cmd = do
  require opens
  ensure_tmp_log_mode log
  emit (logged log (log_line time cmd))
  exec_cmd ← checked 4608 (redirected cmd log)
  emit (system exec_cmd)
  require (h.result exec_cmd == 0)

abbrev pub baas_mount : Text → Text
baas_mount prebuild = codes "/mnt/side-vols/" ++ prebuild

abbrev pub create_log : Host → Text → Text
create_log h prebuild =
    codes "/tmp/mrepo_"
    ++ prebuild
    ++ codes "_baas_"
    ++ time_or "unknown" h.log_time
    ++ codes ".log"

abbrev pub createvol : CmdContext → Text → Text
createvol c prebuild =
    c.baas_path
    ++ codes " createvol -s "
    ++ prebuild
    ++ codes " -c "
    ++ c.baas_ns
    ++ codes "/"
    ++ prebuild
    ++ codes " --skipco --cmdline --skipauth"

abbrev pub edit : CmdContext → Text → Text
edit c prebuild = c.baas_path ++ codes " edit -s " ++ prebuild ++ codes " -bmp --login False"

-- The two commands that make and mount a prebuilt volume.
unfoldable pub clone_prebuilt : Host → CmdContext → Text → Text → Run (Unit {0})
unfolding run_logged
clone_prebuilt h c prebuild log = do
  cmd ← checked 4096 (createvol c prebuild)
  run_logged h h.first_time h.opens_first log cmd
  cmd' ← checked 4096 (edit c prebuild)
  run_logged h h.second_time h.opens_second log cmd'

unfoldable pub handle_prebuilt : Host → CmdContext → Text → Run Text
unfolding clone_prebuilt all_bytes
handle_prebuilt h c prebuild = do
  require (all_bytes is_name_byte prebuild)
  log ← checked 512 (create_log h prebuild)
  ensure_tmp_log_mode log
  lowerdir ← checked 2048 (baas_mount prebuild)
  (if is_path_mounted h.mounts lowerdir then pure tt else clone_prebuilt h c prebuild log)
  require (h.exists lowerdir)
  pure lowerdir

-- handle_create: the path that it writes to its argument, which was empty
abbrev pub prebuilt_of : Host → CmdContext → Option Text → Run Text
prebuilt_of h c none t = (some [], t)
prebuilt_of h c (some prebuild) t = handle_prebuilt h c prebuild t

unfoldable pub handle_create : Host → CmdContext → Run Text
unfolding handle_prebuilt
handle_create h c = prebuilt_of h c c.prebuild_sb

abbrev pub destroy_log : Host → Text → Text
destroy_log h prebuild =
    codes "/tmp/mrepo_destroypod_"
    ++ prebuild
    ++ codes "_"
    ++ time_or "unknown" h.log_time
    ++ codes ".log"

abbrev pub destroypod : Text → Text → Text
destroypod baas prebuild = baas ++ codes " destroypod -s " ++ prebuild ++ codes " --skipauth"

-- What handle_destroy does for the log and the command that it makes. `detached` is the call of
-- launch_detached_command, whose forks may fail, which handle_destroy only prints.
unfoldable pub launch : Host → Text → Text → Run (Unit {0})
launch h log cmd = do
  ensure_tmp_log_mode log
  checked 4096 cmd
  (if h.opens_first
      then ensure_tmp_log_mode log >> emit (logged log (log_line h.first_time cmd))
      else pure tt)
  exec_cmd ← checked 4608 (redirected cmd log)
  emit (detached exec_cmd)

-- handle_destroy always returns 0, so what `launch` returns is dropped.
unfoldable pub handle_destroy : Host → Reply → Text → List Act → List Act
unfolding launch
handle_destroy h rep baas_path t =
    let log = destroy_log h rep.prebuild_sb in
    let baas = if is_empty rep.baas_path then baas_path else rep.baas_path in
    if is_empty rep.prebuild_sb
    then t
    else if leb 512 (length log)
    then t
    else (launch h log (destroypod baas rep.prebuild_sb) t).1

-- The lower directory of a create with a prebuilt sandbox is the mount of that.
abbrev pub at_lowerdir : Text → Request → Request
at_lowerdir lowerdir r = if is_empty lowerdir then r else record r { lowerdir = fit 2048 lowerdir }

unfoldable pub with_prebuilt : Host → Parsed → Request → Run Request
unfolding handle_create
with_prebuilt h p r =
    if is_create p.cmd && is_set p.context.prebuild_sb
    then handle_create h p.context >>= (λ lowerdir. pure (at_lowerdir lowerdir r))
    else pure r

-- The reply that main has set to zeros.
abbrev pub zeroed_reply : Reply
zeroed_reply = record { status = 0; details = []; baas_path = []; prebuild_sb = [] }

-- The result -1 is `none`. A read of no bytes is not one: it leaves the zeros.
unfoldable pub receive : Answer → Request → Run Reply
receive unsent r = lift none
receive unread r = emit (sent r) >> lift none
receive closed r = emit (sent r) >> lift (some zeroed_reply)
receive (replied rep) r = emit (sent r) >> lift (some rep)

abbrev pub send_request_to_daemon : Host → Request → Run Reply
send_request_to_daemon h r = receive (h.daemon r) r

-- The NULs that main writes into the reply.
abbrev pub ended : Reply → Reply
ended rep = record rep {
  details = fit 16384 rep.details;
  baas_path = fit 512 rep.baas_path;
  prebuild_sb = fit 256 rep.prebuild_sb;
}

-- main behind a reply that is a success
abbrev pub after_reply : Host → CmdContext → Reply → Cmd → Run (Unit {0})
after_reply h c rep destroy t = (some tt, handle_destroy h rep c.baas_path t)
after_reply h c rep _ t = (some tt, t)

unfoldable pub finish : Host → Parsed → Reply → Run (Unit {0})
unfolding handle_destroy
finish h p rep = require (rep.status == 0) >> after_reply h p.context rep p.cmd

-- main, from the arguments behind the name of the program: `some tt` for the exit code 0, `none` for 1.
unfoldable pub main : Host → Text → List Text → Run (Unit {0})
unfolding with_prebuilt finish
main h cwd args = do
  p ← lift (parse_arguments cwd args)
  r ← lift (prepare_mount_request cwd h.ids p)
  r' ← with_prebuilt h p r
  rep ← send_request_to_daemon h r'
  finish h p (ended rep)
