-- ===== src/Monitor/Health.antt =====
-- The health check of mbroker/daemon/monitor.c: which sandboxes count as healthy, and what its lines say.
use native.Mathlib.Nat.{zero-add}
use aiomb.Prelude.{
  ℕ, ◌+◌, ◌-◌, ◌*◌, ◌≤◌, ◌<◌, List, [], ◌∷◌, Bool, true, false, not, Option, none, some, Text, ◌==◌,
  length, select, is_empty, ◌≡◌, ◌⊎◌, refl, ◌∙◌, arith, Bool-cases, inl, inr,
}
use aiomb.MountInfo.{Table, mountinfo_snapshot_mountpoints, max_tracked}
use aiomb.DaemonConfig.{DaemonConfig}
use aiomb.Model.{Json}
use aiomb.Monitor.{
  Files, overlayfs_super_magic, ulong_mod, check_sandbox, checking, complete, check_all,
  model_report, run_health_check,
}

-- What statvfs can say: its numbers fit the arithmetic of the check.
abbrev pub Sane : Option (ℕ × ℕ) → Type 0
Sane none = Unit
Sane (some (blocks, bfree)) = (bfree ≤ blocks) × (blocks * 100 < ulong_mod)

-- A file system with room left: less than 95 of 100 blocks are used, or it has no blocks at all.
abbrev pub Roomy : Option (ℕ × ℕ) → Type 0
Roomy none = Unit
Roomy (some (blocks, bfree)) = (blocks ≡ 0) ⊎ ((blocks - bfree) * 100 < 95 * blocks)

-- A sandbox that is mounted, can be reached, is an overlayfs and has room left.
pub record IsHealthy (f : Files) (mp : Text) : Type 0 where
  pub mounted : f.mounted mp ≡ true
  pub stats : f.stats mp ≡ true
  pub overlay : f.fstype mp ≡ some overlayfs_super_magic
  pub roomy : Roomy (f.space mp)

abbrev pub is_healthy : Files → Text → Bool
is_healthy f mp = check_sandbox f mp == 0

length-partition :
    {A : Type 0} (p : A → Bool) (xs : List A)
    → length (select p xs) + length (select (λ x. not (p x)) xs) ≡ length xs
unfolding select
length-partition p [] = omega arith
length-partition p (x ∷ xs) = ground (arith, length-partition p xs)

check_all_lem :
    (f : Files) (mps : List Text) (h u : ℕ)
    → check_all f mps (h, u) ≡ (
      h + length (select (is_healthy f) mps),
      u + length (select (λ mp. not (is_healthy f mp)) mps),
    )
unfolding check_all select
check_all_lem f [] h u = ground arith
check_all_lem f (mp ∷ mps) h u = elim (Bool-cases (check_sandbox f mp == 0)) [
  | inl e ↦ rw e (check_all_lem f mps (h + 1) u ∙ ground arith)
  | inr e ↦ rw e (check_all_lem f mps h (u + 1) ∙ ground arith)
]

-- With an active sandbox in the table, a health check first says how many there are, and then counts each of them
-- once, as healthy where check_sandbox finds no issue and as unhealthy where it does; what it says of the model
-- server follows.
pub run_health_check_lem :
    {R : Type 0} (nought : R) (model_rpc : Json R → Option (Json R)) (f : Files)
    (cfg : DaemonConfig) (t : Table)
    → is_empty (mountinfo_snapshot_mountpoints max_tracked t) ≡ false
    → let mps = mountinfo_snapshot_mountpoints max_tracked t in
      let healthy = length (select (is_healthy f) mps) in
      let unhealthy = length (select (λ mp. not (is_healthy f mp)) mps) in
      (healthy + unhealthy ≡ length mps)
      × (run_health_check nought model_rpc f cfg t
          ≡ checking (length mps)
            ∷ complete healthy unhealthy (length mps)
            ∷ model_report nought model_rpc cfg)
unfolding run_health_check
run_health_check_lem nought model_rpc f cfg t some_active =
    let mps = mountinfo_snapshot_mountpoints max_tracked t in
    (
      length-partition (is_healthy f) mps,
      rw (some_active, check_all_lem f mps 0 0) (simp zero-add refl),
    )
