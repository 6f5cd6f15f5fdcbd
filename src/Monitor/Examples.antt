-- ===== src/Monitor/Examples.antt =====
-- Two sandboxes, one of them nearly full, and a short life of the thread of mbroker/daemon/monitor.c.
use aiomb.Prelude.{
  ℕ, ◌+◌, ◌*◌, ◌/◌, ◌≤◌, [], ◌∷◌, ◌++◌, true, false, Option, none, some, codes, text_eq,
  if◌then◌else◌, ◌≡◌, refl,
}
use aiomb.CString.{fit}
use aiomb.MountInfo.{Table, mountinfo_snapshot_mountpoints}
use aiomb.DaemonConfig.{zeroed}
use aiomb.Model.{Json}
use aiomb.Monitor.{
  Files, overlayfs_super_magic, check_sandbox, checking, complete, run_health_check, loop_test,
  ended, slept, monitor_thread,
}
use aiomb.Monitor.Thread.{running_for, sleeps, checks, monitor_thread_stops, monitor_thread-checks}

abbrev files : Files
files = record {
  mounted = λ path. true;
  stats = λ path. true;
  fstype = λ path. some overlayfs_super_magic;
  space = λ path. if text_eq path (codes "/a") then some (100, 6) else some (100, 5);
}

abbrev table : Table
table =
    record {
      mountpoint = codes "/a";
      active = true;
      flags = 0;
      overlayroot = [];
      baas_path = [];
      prebuild_sb = [];
    }
    ∷ record {
      mountpoint = codes "/b";
      active = true;
      flags = 0;
      overlayroot = [];
      baas_path = [];
      prebuild_sb = [];
    }
    ∷ []

silent : Json ℕ → Option (Json ℕ)
silent request = none

-- 94 of 100 blocks are used on /a, and 95 on /b.
checks_two : run_health_check 0 silent files zeroed table ≡ checking 2 ∷ complete 1 1 2 ∷ []
unfolding run_health_check check_sandbox mountinfo_snapshot_mountpoints fit text_eq
checks_two = refl

-- It is stopped after three reads, in its second sleep.
monitor_thread_stops_example :
    monitor_thread ((true ∷ true ∷ true ∷ []) ++ false ∷ false ∷ true ∷ []) loop_test
    ≡ (ended, (monitor_thread (true ∷ true ∷ true ∷ []) loop_test).1)
monitor_thread_stops_example = monitor_thread_stops (true ∷ true ∷ true ∷ []) (true ∷ []) loop_test

sleeps_twice : (monitor_thread (true ∷ true ∷ true ∷ []) loop_test).1 ≡ slept ∷ slept ∷ []
unfolding monitor_thread
sleeps_twice = refl

monitor_thread-checks_example :
    (checks (monitor_thread (running_for 1300) loop_test).1 ≡ 1300 / 602)
    × (600 * (1300 / 602) ≤ sleeps (monitor_thread (running_for 1300) loop_test).1)
    × (sleeps (monitor_thread (running_for 1300) loop_test).1 ≤ 600 * (1300 / 602) + 600)
monitor_thread-checks_example = monitor_thread-checks 1300
