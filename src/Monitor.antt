-- ===== src/Monitor.antt =====
-- mbroker/daemon/monitor.c: the check of one sandbox and of all of them, and the thread that checks every ten
-- minutes. What it writes to the log are the values of Line.
mod Health
mod Thread
mod Examples
use aiomb.Prelude.{
  ℕ, zero, suc, ◌+◌, ◌-◌, ◌*◌, ◌/◌, ◌%◌, List, [], ◌∷◌, ◌++◌, Bool, true, false, not, ◌&&◌, Option,
  none, some, Text, ℤ, ◌==◌, ltb, leb, length, is_empty, if◌then◌else◌,
}
use aiomb.MountInfo.{Table, mountinfo_snapshot_mountpoints, max_tracked}
use aiomb.DaemonConfig.{DaemonConfig}
use aiomb.Model.{Json, AnomalyEntry, AnomalyResult}
use aiomb.Model.Calls.{model_check_anomaly}
use aiomb.Model.Choice.{is_zero}

-- What the system answers for a path: /proc/self/mountinfo, stat, the type of statfs, and the blocks and free
-- blocks of statvfs.
pub record Files : Type 0 where
  pub mounted : Text → Bool
  pub stats : Text → Bool
  pub fstype : Text → Option ℕ
  pub space : Text → Option (ℕ × ℕ)

abbrev pub overlayfs_super_magic : ℕ
overlayfs_super_magic = 0x794c7630

-- unsigned long has 64 bits.
abbrev pub ulong_mod : ℕ
ulong_mod = 18446744073709551616

abbrev pub count_if : Bool → ℕ
count_if b = if b then 1 else 0

abbrev pub is_not_overlay : Option ℕ → Bool
is_not_overlay none = true
is_not_overlay (some t) = not (t == overlayfs_super_magic)

-- The percentage that is used, as the code computes it.
unfoldable pub used_pct : ℕ → ℕ → ℕ
used_pct blocks bfree = (blocks + ulong_mod - bfree) % ulong_mod * 100 % ulong_mod / blocks

unfoldable pub is_full : Option (ℕ × ℕ) → Bool
unfolding used_pct
is_full none = false
is_full (some (blocks, bfree)) = not (blocks == 0) && leb 95 (used_pct blocks bfree)

-- The number of issues that check_sandbox returns the negative of.
unfoldable pub check_sandbox : Files → Text → ℕ
unfolding is_full
check_sandbox f mp =
    if not (f.mounted mp)
    then 1
    else count_if (not (f.stats mp))
      + count_if (is_not_overlay (f.fstype mp))
      + count_if (is_full (f.space mp))

-- The lines of run_health_check.
pub data Line (R : Type 0) : Type 0 where
  no_active : Line R
  checking : ℕ → Line R
  complete : ℕ → ℕ → ℕ → Line R
  anomaly : AnomalyEntry R → Line R
  all_passed : ℕ → Line R
  unavailable : Line R

-- The counts of healthy and unhealthy sandboxes.
unfoldable pub check_all : Files → List Text → ℕ × ℕ → ℕ × ℕ
check_all f [] counts = counts
check_all f (mp ∷ mps) (healthy, unhealthy) =
    check_all f mps
      (if check_sandbox f mp == 0 then (healthy + 1, unhealthy) else (healthy, unhealthy + 1))

abbrev pub anomaly_lines : {R : Type 0} → List (AnomalyEntry R) → List (Line R)
anomaly_lines [] = []
anomaly_lines (e ∷ es) = if e.anomalous then anomaly e ∷ anomaly_lines es else anomaly_lines es

abbrev pub model_lines : {R : Type 0} → ℕ → Option (AnomalyResult R) → List (Line R)
model_lines servers none = unavailable ∷ []
model_lines servers (some r) =
    if r.any_anomalous then anomaly_lines r.servers else all_passed servers ∷ []

abbrev pub report : {R : Type 0} → Files → List Text → List (Line R)
unfolding check_all
report f mps =
    let (healthy, unhealthy) = check_all f mps (0, 0) in
    checking (length mps) ∷ complete healthy unhealthy (length mps) ∷ []

-- What run_health_check says of the model server; the telemetry that it sends is all zeros.
unfoldable pub model_report :
    {R : Type 0} → R → (Json R → Option (Json R)) → DaemonConfig → List (Line R)
model_report {R} nought model_rpc cfg =
    let zeros : ℕ → R = λ i. nought in
    let servers = length cfg.nfs_servers in
    if not (is_zero cfg.ml_enabled) && ltb 0 servers
    then model_lines servers (model_check_anomaly nought model_rpc zeros servers)
    else []

unfoldable pub run_health_check :
    {R : Type 0} → R → (Json R → Option (Json R)) → Files → DaemonConfig → Table → List (Line R)
unfolding check_all model_report
run_health_check nought model_rpc f cfg t =
    let mps = mountinfo_snapshot_mountpoints max_tracked t in
    if is_empty mps then no_active ∷ [] else report f mps ++ model_report nought model_rpc cfg

-- Where the thread stands: at the test of its outer loop, at the test of the loop of sleeps with `i` of them done,
-- at the test behind it, or at its end. Each of the tests reads the flag monitor_running once.
pub data Place : Type 0 where
  loop_test : Place
  sleep_test : ℕ → Place
  break_test : Place
  ended : Place

pub data Effect : Type 0 where
  slept checked : Effect

abbrev pub monitor_interval_sec : ℕ
monitor_interval_sec = 600

-- monitor_thread from one read of the flag to the next. Behind the last sleep the flag is not read.
unfoldable pub step : Bool → Place → Place × List Effect
step running loop_test = (if running then sleep_test 0 else ended, [])
step running (sleep_test i) =
    if running
    then (if leb monitor_interval_sec (i + 1) then break_test else sleep_test (i + 1), slept ∷ [])
    else (break_test, [])
step running break_test = if running then (loop_test, checked ∷ []) else (ended, [])
step running ended = (ended, [])

-- The thread over the values that it reads.
unfoldable pub monitor_thread : List Bool → Place → Place × List Effect
unfolding step
monitor_thread [] p = (p, [])
monitor_thread (running ∷ reads) p =
    let (p', done) = step running p in
    let (q, later) = monitor_thread reads p' in (q, done ++ later)
