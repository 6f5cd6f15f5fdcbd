-- ===== src/Client/Success.antt =====
-- What has happened when main of mbroker/client/main.c ends with success.
use mathlib.Core.List.{append_assoc, append-nil}
use mathlib.Core.Path.{subst}
use mathlib.Core.Option.{some-injective, none-ne-some}
use aiomb.Prelude.{
  All, List, [], ◌∷◌, ◌++◌, Bool, true, false, Option, none, some, Text, ◌==◌, length, leb,
  if◌then◌else◌, ◌≡◌, refl, sym, ap, ◌∙◌, arith, ◌⊎◌, inl, inr,
}
use aiomb.CString.{fit, strip_prefix}
use aiomb.CString.Laws.{fit-of_fits}
use aiomb.Broker.{Cmd, create, is_create, Request, Reply}
use aiomb.Client.{CmdContext, Parsed, is_set, parse_arguments}
use aiomb.Client.Prepare.{prepare_mount_request}
use aiomb.Client.Run.{
  Act, system, open_mode, logged, sent, pure, lift, ◌>>=◌, ensure_tmp_log_mode, is_path_mounted,
}
use aiomb.Client.Commands.{
  Host, is_name_byte, all_bytes, log_line, redirected, run_logged, baas_mount, create_log,
  createvol, edit, clone_prebuilt, handle_prebuilt, prebuilt_of, handle_create, at_lowerdir,
  with_prebuilt, send_request_to_daemon, ended, Answer, unsent, unread, closed, replied, receive,
  zeroed_reply, finish, after_reply, main,
}
use aiomb.Client.Steps.{
  bind-eq-some, lift-known, lift-eq-some, require-eq-some, checked-eq-some, emit-bind, require_done,
  pure_done, commands, commands-append, three,
}

-- A log that ensure_tmp_log_mode takes for its own.
abbrev IsTmp : Text → Type 0
IsTmp log = (t : List Act) → ensure_tmp_log_mode log t ≡ (some tt, t ++ open_mode log ∷ [])

run_logged_done :
    (h : Host) (stamp : Option Text) (opens : Bool) (log cmd : Text) (t t' : List Act)
    → IsTmp log
    → run_logged h stamp opens log cmd t ≡ (some tt, t')
    → ((h.result (redirected cmd log) == 0) ≡ true)
      × (commands t' ≡ commands t ++ redirected cmd log ∷ [])
unfolding run_logged
run_logged_done h stamp opens log cmd t t' tmp e =
    let (opened, e1) = require-eq-some opens _ t e in
    let (u, m, e2) = bind-eq-some (ensure_tmp_log_mode log) _ t e1 in
    let (fits, e3) = checked-eq-some 4608 (redirected cmd log) _ _ (rw emit-bind at e2) in
    let (ok, e4) = require_done _ _ (rw emit-bind at e3) in
    let acts : List Act =
      open_mode log ∷ logged log (log_line stamp cmd) ∷ system (redirected cmd log) ∷ [] in
    let all : t ++ acts ≡ t' = sym (three t _ _ _) ∙ (rw (tmp t) at e4) in
    (ok, rw (← all) (commands-append t acts))

IsTmp-create_log : (h : Host) (prebuild : Text) → IsTmp (create_log h prebuild)
unfolding ensure_tmp_log_mode strip_prefix
IsTmp-create_log h prebuild t = refl

clone_prebuilt_done :
    (h : Host) (c : CmdContext) (prebuild log : Text) (t t' : List Act)
    → IsTmp log
    → clone_prebuilt h c prebuild log t ≡ (some tt, t')
    → ((h.result (redirected (createvol c prebuild) log) == 0) ≡ true)
      × ((h.result (redirected (edit c prebuild) log) == 0) ≡ true)
      × (commands t'
          ≡ commands t
            ++ redirected (createvol c prebuild) log ∷ redirected (edit c prebuild) log ∷ [])
unfolding clone_prebuilt
clone_prebuilt_done h c prebuild log t t' tmp e =
    let (fits, e1) = checked-eq-some 4096 (createvol c prebuild) _ t e in
    let (u, m, e2) =
      bind-eq-some (run_logged h h.first_time h.opens_first log (createvol c prebuild)) _ t e1 in
    let t1 = (run_logged h h.first_time h.opens_first log (createvol c prebuild) t).1 in
    let (made, first) =
      run_logged_done h h.first_time h.opens_first log (createvol c prebuild) t t1 tmp m in
    let (fits', e3) = checked-eq-some 4096 (edit c prebuild) _ t1 e2 in
    let (mounted, second) =
      run_logged_done h h.second_time h.opens_second log (edit c prebuild) t1 t' tmp e3 in
    (
      made,
      mounted,
      second
          ∙ ap (λ (l : List Text). l ++ redirected (edit c prebuild) log ∷ []) first
          ∙ append_assoc (commands t) (redirected (createvol c prebuild) log ∷ [])
              (redirected (edit c prebuild) log ∷ []),
    )

-- What a create with a prebuilt sandbox has run.
abbrev pub prebuilt_commands : Host → CmdContext → Text → List Text
prebuilt_commands h c prebuild =
    if is_path_mounted h.mounts (baas_mount prebuild)
    then []
    else redirected (createvol c prebuild) (create_log h prebuild)
      ∷ redirected (edit c prebuild) (create_log h prebuild)
      ∷ []

abbrev Succeeds : Host → Text → Type 0
Succeeds h cmd = (h.result cmd == 0) ≡ true

mounted_done :
    (h : Host) (c : CmdContext) (prebuild : Text) (mounted : Bool) (t t' : List Act)
    → (if mounted then pure tt else clone_prebuilt h c prebuild (create_log h prebuild)) t
      ≡ (some tt, t')
    → let ran =
        if mounted
        then []
        else redirected (createvol c prebuild) (create_log h prebuild)
          ∷ redirected (edit c prebuild) (create_log h prebuild)
          ∷ [] in
      All (Succeeds h) ran × (commands t' ≡ commands t ++ ran)
mounted_done h c prebuild true t t' e =
    let (_, all) = pure_done tt t e in (tt, ap commands (sym all) ∙ sym (append-nil (commands t)))
mounted_done h c prebuild false t t' e =
    let (made, mounted, all) =
      clone_prebuilt_done h c prebuild (create_log h prebuild) t t' (IsTmp-create_log h prebuild)
        e in
    ((made, (mounted, tt)), all)

pub handle_prebuilt_done :
    (h : Host) (c : CmdContext) (prebuild lowerdir : Text) (t t' : List Act)
    → handle_prebuilt h c prebuild t ≡ (some lowerdir, t')
    → (lowerdir ≡ baas_mount prebuild)
      × (h.exists (baas_mount prebuild) ≡ true)
      × (leb 2048 (length (baas_mount prebuild)) ≡ false)
      × All (Succeeds h) (prebuilt_commands h c prebuild)
      × (commands t' ≡ commands t ++ prebuilt_commands h c prebuild)
unfolding handle_prebuilt
handle_prebuilt_done h c prebuild lowerdir t t' e =
    let log = create_log h prebuild in
    let (named, e1) = require-eq-some (all_bytes is_name_byte prebuild) _ t e in
    let (fits, e2) = checked-eq-some 512 log _ t e1 in
    let (u, m, e3) = bind-eq-some (ensure_tmp_log_mode log) _ t e2 in
    let (short, e4) = checked-eq-some 2048 (baas_mount prebuild) _ _ e3 in
    let (v, m', e5) =
      bind-eq-some
        (if is_path_mounted h.mounts (baas_mount prebuild)
          then pure tt
          else clone_prebuilt h c prebuild log)
        _ _ e4 in
    let (there, e6) = require-eq-some (h.exists (baas_mount prebuild)) _ _ e5 in
    let (same, all) = pure_done _ _ e6 in
    let (succeeded, ran) =
      mounted_done h c prebuild (is_path_mounted h.mounts (baas_mount prebuild)) _ _ m' in
    let before : commands (ensure_tmp_log_mode log t).1 ≡ commands t =
      ap commands (ap (λ (r : Option (Unit {0}) × List Act). r.1) (IsTmp-create_log h prebuild t))
      ∙ commands-append t (open_mode log ∷ [])
      ∙ append-nil (commands t) in
    (
      sym same,
      there,
      short,
      succeeded,
      ap commands (sym all)
          ∙ ran
          ∙ ap (λ (l : List Text). l ++ prebuilt_commands h c prebuild) before,
    )

-- A create whose client exits with 0.
pub record Created (h : Host) (c : CmdContext) (prebuild : Text) (t : List Act) : Type 0 where
  pub request : Request
  pub reply : Reply
  pub lowerdir : request.lowerdir ≡ baas_mount prebuild
  pub exists : h.exists (baas_mount prebuild) ≡ true
  pub before : List Act
  pub trace : t ≡ before ++ sent request ∷ []
  pub answered :
      (h.daemon request ≡ replied reply) ⊎ ((h.daemon request ≡ closed) × (reply ≡ zeroed_reply))
  pub status : (reply.status == 0) ≡ true
  pub ran : commands t ≡ prebuilt_commands h c prebuild
  pub succeeded : All (Succeeds h) (prebuilt_commands h c prebuild)

-- What a run of handle_create for a prebuilt sandbox has done.
abbrev IsPrebuilt : Host → CmdContext → Text → Text → List Act → List Act → Type 0
IsPrebuilt h c prebuild lowerdir t t' =
    (lowerdir ≡ baas_mount prebuild)
    × (h.exists (baas_mount prebuild) ≡ true)
    × All (Succeeds h) (prebuilt_commands h c prebuild)
    × (commands t' ≡ commands t ++ prebuilt_commands h c prebuild)

IsPrebuilt-done :
    (h : Host) (c : CmdContext) (prebuild : Text) (r r' : Request) (t t' : List Act)
    → (handle_prebuilt h c prebuild >>= (λ lowerdir. pure (at_lowerdir lowerdir r))) t
      ≡ (some r', t')
    → IsPrebuilt h c prebuild r'.lowerdir t t'
IsPrebuilt-done h c prebuild r r' t t' e =
    let (lowerdir, ended, e1) = bind-eq-some (handle_prebuilt h c prebuild) _ t e in
    let (is, there, short, succeeded, ran) = handle_prebuilt_done h c prebuild lowerdir t _ ended in
    let (same, all) = pure_done (at_lowerdir lowerdir r) _ e1 in
    let fits : fit 2048 (baas_mount prebuild) ≡ baas_mount prebuild =
      fit-of_fits 2048 (baas_mount prebuild) (ground arith) in
    let set : (at_lowerdir lowerdir r).lowerdir ≡ baas_mount prebuild = rw is fits in
    (
      ap (λ (x : Request). x.lowerdir) (sym same) ∙ set,
      there,
      succeeded,
      ap commands (sym all) ∙ ran,
    )

prebuilt_of_done :
    (h : Host) (c : CmdContext) (prebuild : Text) (o : Option Text) (r r' : Request)
    (t t' : List Act)
    → o ≡ some prebuild
    → (if is_set o
          then prebuilt_of h c o >>= (λ lowerdir. pure (at_lowerdir lowerdir r))
          else pure r)
        t
      ≡ (some r', t')
    → IsPrebuilt h c prebuild r'.lowerdir t t'
prebuilt_of_done h c prebuild none r r' t t' is e = ground arith
prebuilt_of_done h c prebuild (some x) r r' t t' is e =
    subst (λ y. IsPrebuilt h c y r'.lowerdir t t') (some-injective x prebuild is)
      (IsPrebuilt-done h c x r r' t t' e)

with_prebuilt_done :
    (h : Host) (p : Parsed) (prebuild : Text) (r r' : Request) (t t' : List Act)
    → is_create p.cmd ≡ true
    → p.context.prebuild_sb ≡ some prebuild
    → with_prebuilt h p r t ≡ (some r', t')
    → IsPrebuilt h p.context prebuild r'.lowerdir t t'
unfolding with_prebuilt handle_create
with_prebuilt_done h p prebuild r r' t t' is pb e =
    prebuilt_of_done h p.context prebuild p.context.prebuild_sb r r' t t' pb (rw is at e)

-- send_request_to_daemon that does not fail
received :
    (a : Answer) (r : Request) (t : List Act) {rep : Reply} {t' : List Act}
    → receive a r t ≡ (some rep, t')
    → ((a ≡ replied rep) ⊎ ((a ≡ closed) × (rep ≡ zeroed_reply))) × (t' ≡ t ++ sent r ∷ [])
unfolding lift receive
received unsent r t e = absurd (none-ne-some _ (ap (λ (x : Option Reply × List Act). x.0) e))
received unread r t e =
    absurd (none-ne-some _ (ap (λ (x : Option Reply × List Act). x.0) (rw emit-bind at e)))
received closed r t e =
    let e' = rw emit-bind at e in
    (
      inr (refl, sym (some-injective _ _ (ap (λ (x : Option Reply × List Act). x.0) e'))),
      sym (ap (λ (x : Option Reply × List Act). x.1) e'),
    )
received (replied rep') r t e =
    let e' = rw emit-bind at e in
    (
      inl (ap replied (some-injective _ _ (ap (λ (x : Option Reply × List Act). x.0) e'))),
      sym (ap (λ (x : Option Reply × List Act). x.1) e'),
    )

sent_last : (r : Request) (t t' : List Act) → t' ≡ t ++ sent r ∷ [] → commands t' ≡ commands t
sent_last r t t' e = ap commands e ∙ commands-append t (sent r ∷ []) ∙ append-nil (commands t)

after_create :
    (h : Host) (c : CmdContext) (rep : Reply) (cmd : Cmd) (t t' : List Act)
    → is_create cmd ≡ true
    → after_reply h c rep cmd t ≡ (some tt, t')
    → t ≡ t'
after_create h c rep create t t' is e = ap (λ (r : Option (Unit {0}) × List Act). r.1) e
after_create h c rep _ t t' is e = ground arith

-- When the client exits with 0 after a create with a prebuilt sandbox, it has sent a request whose lower directory
-- is the mount of that sandbox, which exists; this was the last that it did; the daemon has answered that request
-- with success, or has closed the connection without a reply, which the client takes for a success; and the commands
-- that ran are none where it was mounted already, and else the two that clone and mount it, in this order, both
-- with success.
pub main-Created :
    (h : Host) (cwd : Text) (args : List Text) (p : Parsed) (prebuild : Text) (t : List Act)
    → parse_arguments cwd args ≡ some p
    → is_create p.cmd ≡ true
    → p.context.prebuild_sb ≡ some prebuild
    → main h cwd args [] ≡ (some tt, t)
    → Created h p.context prebuild t
unfolding main finish
main-Created h cwd args p prebuild t parsed is pb e =
    let e1 = lift-known (parse_arguments cwd args) _ [] parsed e in
    let (r, prepared, e2) = lift-eq-some (prepare_mount_request cwd h.ids p) _ [] e1 in
    let (r', built, e3) = bind-eq-some (with_prebuilt h p r) _ [] e2 in
    let t1 = (with_prebuilt h p r []).1 in
    let (rep, answer, e4) = bind-eq-some (send_request_to_daemon h r') _ t1 e3 in
    let (ok, e5) = require-eq-some ((ended rep).status == 0) _ _ e4 in
    let (lower, there, succeeded, ran) = with_prebuilt_done h p prebuild r r' [] t1 is pb built in
    let known = received (h.daemon r') r' t1 answer in
    let same = after_create h p.context (ended rep) p.cmd _ t is e5 in
    record {
      request = r';
      reply = rep;
      lowerdir = lower;
      exists = there;
      before = t1;
      trace = sym same ∙ known.1;
      answered = known.0;
      status = ok;
      ran = ap commands (sym same) ∙ sent_last r' t1 _ known.1 ∙ ran;
      succeeded = succeeded;
    }
