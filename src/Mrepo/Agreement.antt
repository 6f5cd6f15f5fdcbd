-- ===== src/Mrepo/Agreement.antt =====
-- mbroker/client/mrepo.c does what main.c does, where no override option is given; only the command of a destroy
-- is run at once instead of in the background.
use aiomb.Prelude.{
  List, Bool, true, Option, none, some, Text, length, leb, is_empty, ◌≡◌, refl, ap, Bool-cases, inl,
  inr,
}
use aiomb.Broker.{Cmd, create, destroy, refresh, sandbox_list, recover, unknown, Request, Reply}
use aiomb.Client.{CmdContext, Parsed}
use aiomb.Client.Run.{Act, detached, sent}
use aiomb.Client.Commands.{
  Host, redirected, log_line, launch, destroy_log, destroypod, handle_destroy,
  send_request_to_daemon, ended, Answer, unsent, unread, closed, replied, receive, zeroed_reply,
}
use aiomb.Client.Commands
use aiomb.Mrepo.{destroy_volume, destroyed, finish, after_reply}
use aiomb.Mrepo.Rules.{
  is_destroy, now, Agrees, Agrees-lift, Agrees-pure, Agrees-if, Agrees-bind, Agrees-require,
  Agrees-checked, Agrees-emit, Agrees-log_mode,
}

launch-Agrees :
    (h : Host) (log cmd : Text) → Agrees true (launch h log cmd) (destroy_volume h log cmd)
unfolding destroy_volume launch
launch-Agrees h log cmd = Agrees-bind true _ _ _ _ (Agrees-log_mode true log) (λ _.
    Agrees-bind true _ _ _ _ (Agrees-checked true 4096 cmd) (λ _.
      Agrees-bind true _ _ _ _
        (Agrees-if true h.opens_first _ _ _ _
          (Agrees-bind true _ _ _ _ (Agrees-log_mode true log) (λ _. Agrees-emit true _))
          (Agrees-pure true tt))
        (λ _.
          Agrees-bind true _ _ _ _ (Agrees-checked true 4608 (redirected cmd log))
            (λ exec_cmd. Agrees-emit true (detached exec_cmd)))))

receive-Agrees : (d : Bool) (a : Answer) (r : Request) → Agrees d (receive a r) (receive a r)
unfolding receive
receive-Agrees d unsent r = Agrees-lift d none
receive-Agrees d unread r = Agrees-bind d _ _ _ _ (Agrees-emit d (sent r)) (λ _. Agrees-lift d none)
receive-Agrees d closed r =
    Agrees-bind d _ _ _ _ (Agrees-emit d (sent r)) (λ _. Agrees-lift d (some zeroed_reply))
receive-Agrees d (replied rep) r =
    Agrees-bind d _ _ _ _ (Agrees-emit d (sent r)) (λ _. Agrees-lift d (some rep))

pub send-Agrees :
    (d : Bool) (h : Host) (r : Request)
    → Agrees d (send_request_to_daemon h r) (send_request_to_daemon h r)
send-Agrees d h r = receive-Agrees d (h.daemon r) r

handle_destroy-now :
    (h : Host) (rep : Reply) (baas_path : Text) (t : List Act)
    → destroyed h rep baas_path (now true t) ≡ now true (handle_destroy h rep baas_path t)
unfolding destroyed handle_destroy
handle_destroy-now h rep baas_path t = elim (Bool-cases (is_empty rep.prebuild_sb)) [
  | inl e ↦ rw e refl
  | inr e ↦ elim (Bool-cases (leb 512 (length (destroy_log h rep.prebuild_sb)))) [
    | inl e1 ↦ rw (e, e1) refl
    | inr e1 ↦
        rw (e, e1) (ap (λ (r : Option (Unit {0}) × List Act). r.1) ((launch-Agrees h _ _).at t))
  ]
]

after_reply-Agrees :
    (h : Host) (c : CmdContext) (rep : Reply) (cmd : Cmd)
    → Agrees (is_destroy cmd) (Commands.after_reply h c rep cmd) (after_reply h c rep cmd)
after_reply-Agrees h c rep destroy = record {
  at = λ t. ap (λ l. (some tt, l)) (handle_destroy-now h rep c.baas_path t);
}
after_reply-Agrees h c rep create = record { at = λ t. refl }
after_reply-Agrees h c rep refresh = record { at = λ t. refl }
after_reply-Agrees h c rep sandbox_list = record { at = λ t. refl }
after_reply-Agrees h c rep recover = record { at = λ t. refl }
after_reply-Agrees h c rep (unknown n) = record { at = λ t. refl }

pub finish-Agrees :
    (h : Host) (p : Parsed) (rep : Reply)
    → Agrees (is_destroy p.cmd) (Commands.finish h p rep) (finish h p.cmd p.context rep)
unfolding finish Commands.finish
finish-Agrees h p rep =
    Agrees-bind (is_destroy p.cmd) _ _ _ _ (Agrees-require (is_destroy p.cmd) _)
      (λ _. after_reply-Agrees h p.context rep p.cmd)
