-- ===== src/Broker/Examples.antt =====
-- Requests to mbroker/daemon/broker.c.
use aiomb.Prelude.{
  ◌==◌, if◌then◌else◌, ℕ, List, [], ◌∷◌, ◌++◌, true, false, some, codes, ◌≡◌, refl, arith,
}
use aiomb.CString.{fit}
use aiomb.Exports.{exited}
use aiomb.DaemonConfig.{zeroed}
use aiomb.Mount.{eperm}
use aiomb.Mount.Examples.{good, start}
use aiomb.Mount.Create.{mount_sandbox}
use aiomb.Broker.{plain, Request, Service, handle_client}
use aiomb.MountInfo.Bounds.{IsValid}
use aiomb.Mount.Valid.{TableIsValid}
use aiomb.Broker.Run.{Round, client, interrupted, failed, Setup, stopped, broker_run}
use aiomb.Broker.Sequence.{broker_run-Valid, broker_run_stops}
use aiomb.Broker.Guards.{create_of, handle_client_explains, handle_client_denied}

abbrev sys : Service
sys = record {
  promote_start = 0;
  chown_start = 0;
  exportfs = exited 0;
  strerror = λ n. codes "error";
  conf_path = codes "/etc/mrepod.conf";
  open_error = 2;
  entries = some [];
}

-- A request of user 7 with a command and flags, for a sandbox of user 1000.
abbrev ask : ℕ → ℕ → Request
ask cmd flags = record {
  cmd = cmd;
  flags = flags;
  uid = 7;
  gid = 7;
  sandboxname = codes "/home/u/sb";
  lowerdir = [];
  overlayroot = codes "/ov";
  baas_path = [];
  prebuild_sb = [];
}

-- Without an overlay root, a create fails with EINVAL.
handle_client_explains_example : handle_client sys good zeroed (ask 1 0) start ≡ (
  (mount_sandbox good zeroed (create_of (ask 1 0)) start).0,
  plain (mount_sandbox good zeroed (create_of (ask 1 0)) start).1 (
      fit 16384 (
        if (mount_sandbox good zeroed (create_of (ask 1 0)) start).1 == 95
        then codes "Upper/work dirs are on an overlayfs; check overlayroot setting"
        else codes "create failed at '"
          ++ fit 2048 (ask 1 0).sandboxname
          ++ codes "': "
          ++ sys.strerror (mount_sandbox good zeroed (create_of (ask 1 0)) start).1)),
)
unfolding mount_sandbox fit
handle_client_explains_example =
    handle_client_explains sys good zeroed (ask 1 0) start refl refl (omega arith)

handle_client_denied_example :
    ((handle_client sys good zeroed (ask 2 0) start).0 ≡ start)
    × ((handle_client sys good zeroed (ask 2 0) start).1.status ≡ eperm)
handle_client_denied_example =
    handle_client_denied sys good zeroed (ask 2 0) start 1000 refl refl refl (omega arith)
      (omega arith)

-- A create of the sandbox with one lower directory, by a client whom the system answers well.
abbrev created : Request
created = record (ask 1 0) { lowerdir = codes "/lower" }

abbrev empty-IsValid : IsValid start.table
empty-IsValid = record { size = omega arith; distinct = tt; fits = tt }

-- Passes of the loop: a create, an interrupted accept, a destroy, and one that finds the flag set.
abbrev served : Request → Round
served r = record {
  stopping = false;
  accepted = client sys good (some r);
  stopped_meanwhile = false;
}

abbrev broken_off : Round
broken_off = record { stopping = false; accepted = interrupted; stopped_meanwhile = false }

abbrev last : Round
last = record { stopping = true; accepted = failed; stopped_meanwhile = false }

abbrev listening : Setup
listening = record { binds = true; chmods = true; listens = true }

abbrev passes : List Round
passes = served created ∷ broken_off ∷ served (ask 2 0) ∷ []

broker_run-Valid_example : TableIsValid (broker_run listening zeroed passes start).world
broker_run-Valid_example =
    broker_run-Valid listening zeroed passes start (tt, (tt, (tt, tt))) empty-IsValid

broker_run_stops_example :
    ((broker_run listening zeroed (passes ++ last ∷ served created ∷ []) start).exit ≡ stopped)
    × ((broker_run listening zeroed (passes ++ last ∷ served created ∷ []) start).world
        ≡ (broker_run listening zeroed passes start).world)
    × ((broker_run listening zeroed (passes ++ last ∷ served created ∷ []) start).replies
        ≡ (broker_run listening zeroed passes start).replies)
broker_run_stops_example =
    broker_run_stops listening zeroed passes last (served created ∷ []) start refl refl
