-- ===== src/Broker/Run.antt =====
-- broker_run of mbroker/daemon/broker.c: the socket is made, and one client after another is served until
-- broker_stop has set its flag. The system's answers may differ from client to client.
use aiomb.Prelude.{List, [], ◌∷◌, Bool, true, false, ◌&&◌, Option, none, some, if◌then◌else◌}
use aiomb.DaemonConfig.{DaemonConfig}
use aiomb.Mount.{World, Env}
use aiomb.Broker.{Request, Reply, Service, handle_client}

-- What accept gives: a client, of whom a whole request is read or not, EINTR, or another error.
pub data Accepted : Type 0 where
  client : Service → Env → Option Request → Accepted
  interrupted failed : Accepted

-- One pass of the loop: the flag at its head, what accept gives, and the flag behind an accept that fails.
pub record Round : Type 0 where
  pub stopping : Bool
  pub accepted : Accepted
  pub stopped_meanwhile : Bool

-- Whether bind, chmod and listen succeed.
pub record Setup : Type 0 where
  pub binds : Bool
  pub chmods : Bool
  pub listens : Bool

-- A return of 1, a return of 0 with the socket removed, or a loop that still waits.
pub data Exit : Type 0 where
  not_started stopped waiting : Exit

pub record Served : Type 0 where
  pub world : World
  pub replies : List Reply
  pub exit : Exit

abbrev pub reply_first : Reply → Served → Served
reply_first rep s = record s { replies = rep ∷ s.replies }

-- The client's part of a pass; without a whole request nothing is answered.
unfoldable pub serve_client :
    Service → Env → DaemonConfig → Option Request → World → World × List Reply
serve_client sys env cfg none w = (w, [])
serve_client sys env cfg (some r) w =
    let (w', rep) = handle_client sys env cfg r w in (w', rep ∷ [])

abbrev pub with_replies : List Reply → Served → Served
with_replies [] s = s
with_replies (rep ∷ reps) s = reply_first rep (with_replies reps s)

-- One pass: whether the flag is set at its head, what accept gives, whether the flag is set behind an accept
-- that fails, and the passes that follow.
abbrev pub pass : DaemonConfig → Bool → Accepted → Bool → World → (World → Served) → Served
pass cfg true accepted meanwhile w next = record { world = w; replies = []; exit = stopped }
pass cfg false (client sys env request) meanwhile w next =
    let (w', replies) = serve_client sys env cfg request w in with_replies replies (next w')
pass cfg false interrupted true w next = record { world = w; replies = []; exit = stopped }
pass cfg false interrupted false w next = next w
pass cfg false failed true w next = record { world = w; replies = []; exit = stopped }
pass cfg false failed false w next = next w

unfoldable pub serve : DaemonConfig → List Round → World → Served
serve cfg [] w = record { world = w; replies = []; exit = waiting }
serve cfg (r ∷ rs) w = pass cfg r.stopping r.accepted r.stopped_meanwhile w (λ w'. serve cfg rs w')

unfoldable pub broker_run : Setup → DaemonConfig → List Round → World → Served
unfolding serve
broker_run s cfg rounds w =
    if s.binds && (s.chmods && s.listens)
    then serve cfg rounds w
    else record { world = w; replies = []; exit = not_started }
