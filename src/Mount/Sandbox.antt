-- ===== src/Mount/Sandbox.antt =====
-- mount_sandbox of mbroker/daemon/mount_ops.c as a whole.
use aiomb.Prelude.{
  ℕ, [], ◌||◌, Option, none, some, Text, is_empty, ltb, ◌==◌, if◌then◌else◌, ◌≡◌, refl, sym, ap,
  ◌∙◌, ◌⊎◌, inl, inr, Bool-cases, Option-cases, arith, text_eq,
}
use mathlib.Core.Path.{subst}
use aiomb.CString.{fit, tokens, first}
use aiomb.MountInfo.{mountinfo_track}
use aiomb.MountInfo.Bounds.{IsValid}
use aiomb.MountInfo.Slots.{view, stored}
use aiomb.Exports.{ensure_overlay_export}
use aiomb.DaemonConfig.{DaemonConfig}
use aiomb.Mount.{
  reported, World, Env, Ctx, set_errno, einval, clower, setup_overlay_dirs,
  cleanup_custom_nfs_mounts,
}
use aiomb.Mount.Lower.{Walk, walk_components, undo_mounts, Lower, lower_of, handle_custom_lowerdir}
use aiomb.Mount.Create.{
  Create, effective_lowerdir, mount_overlay, err, finish, overlayroot_for, mount_sandbox, with_dirs,
  tracked_meta,
}
use aiomb.Mount.Undo.{Same, is_target, walk_components-Walked}
use aiomb.Mount.Outcome.{Created, Kept, CanTrack, mount_overlay-Result, undo_mounts-Same}
use aiomb.Mount.Denied.{cleanup_from-table}

Same-trans : (w v u : World) → Same w v → Same v u → Same w u
Same-trans w v u (a, b, c, d) (a', b', c', d') = (a' ∙ a, b' ∙ b, c' ∙ c, d' ∙ d)

lower_of-Same :
    (env : Env) (target : ℕ → Text) (w : World) (s : Walk)
    → Same w s.world
    → Same w (lower_of env target s).0
unfolding lower_of
lower_of-Same env target w s h =
    let failed = set_errno einval s.world in
    let n = s.nfs_idx in
    elim (Option-cases s.resolved) [
      | inl e ↦
          rw (e, lower_of)
            (Same-trans w s.world (undo_mounts env target n s.world) h
              (undo_mounts-Same env target n s.world))
      | inr (r, e) ↦ elim (Bool-cases (is_empty r)) [
        | inl f ↦
            rw (e, f, lower_of)
              (Same-trans w s.world (undo_mounts env target n failed) h
                (undo_mounts-Same env target n failed))
        | inr f ↦ rw (e, f, lower_of) h
      ]
    ]

module _ (env : Env) (cfg : DaemonConfig) (c : Create) where
  pub lower-Same : (root : Text) (w : World) → Same w (effective_lowerdir env root c w).0
  unfolding effective_lowerdir handle_custom_lowerdir is_target
  lower-Same root w =
      let target = clower root c.sandboxname in
      let ts = tokens b':' (fit 2048 c.lowerdir) in
      let walked =
        walk_components-Walked env target w ts [] w 0
          ((refl, refl, refl, refl), λ q. ground arith) in
      let custom = lower_of-Same env target w (walk_components env target ts w [] 0) walked.0 in
      elim (Bool-cases (is_empty c.prebuild_sb)) [
        | inl e ↦ rw e custom
        | inr e ↦ elim (Bool-cases (first c.lowerdir == b'/')) [
          | inr e1 ↦ rw (e, e1) (refl, refl, refl, refl)
          | inl e1 ↦ elim (Bool-cases (env.accessible c.lowerdir)) [
            | inl e2 ↦ rw (e, e1, e2) (refl, refl, refl, refl)
            | inr e2 ↦ rw (e, e1, e2) (refl, refl, refl, refl)
          ]
        ]
      ]

  Created-from :
      (w u v : World)
      → u.table ≡ w.table
      → u.exports ≡ w.exports
      → Created env c u v
      → Created env c w v
  Created-from w u v et ex (ctx, m, ok, file, views) =
      let ensured = λ (x : Option Text). ensure_overlay_export env.ensure x c.sandboxname in
      (
        ctx,
        m,
        ap (λ x. (ensured x).ok) (sym ex) ∙ ok,
        file ∙ ap (λ x. (ensured x).file) ex,
        λ k.
            views k
            ∙ ap
                (λ t.
                  if text_eq c.sandboxname k then some (stored (tracked_meta ctx c)) else view t k)
                et,
      )

  CanTrack-from : (w u : World) → u.table ≡ w.table → CanTrack c w → CanTrack c u
  CanTrack-from w u et t = record {
    valid = subst IsValid (sym et) t.valid;
    fits = t.fits;
    absent = ap (λ tb. view tb c.sandboxname) et ∙ t.absent;
    room =
        λ ctx. ap (λ tb. (mountinfo_track c.sandboxname (tracked_meta ctx c) tb).1) et ∙ t.room ctx;
  }

  -- Either the sandbox was created and the status is 0, or the table tracks what it did.
  abbrev pub Outcome : World → World × ℕ → Type 0
  Outcome w r = ((r.1 ≡ 0) × Created env c w r.0) ⊎ Kept w r.0

  err-Kept : (root : Text) (n : ℕ) (w v : World) → Kept w v → Kept w (err env root c n v).0
  unfolding cleanup_custom_nfs_mounts
  err-Kept root n w v h k =
      let cleaned = cleanup_from-table env (λ i. fit 4096 (clower root c.sandboxname i)) 16 0 v in
      elim (Bool-cases (ltb 0 n)) [
        | inl e ↦ rw e (ap (λ t. view t k) cleaned.0 ∙ h k)
        | inr e ↦ rw e (h k)
      ]

  finish-Outcome :
      (ctx : Ctx) (w : World) (r : Lower)
      → CanTrack c w
      → Same w r.0
      → Outcome w (finish env cfg ctx c r)
  unfolding finish
  finish-Outcome ctx w (v, none) t (st, sx, sr, sj) =
      inr (err-Kept ctx.overlayroot 0 w v (λ k. ap (λ tb. view tb k) st))
  finish-Outcome ctx w (v, some (effective, n)) t (st, sx, sr, sj) =
      elim (mount_overlay-Result env cfg c ctx effective v (CanTrack-from w v st t)) [
        | inl (e, made) ↦
            rw e
              (inl (refl, Created-from w v (mount_overlay env cfg ctx c effective v).0 st sx made))
        | inr (e, kept) ↦ rw e (
            inr (
              err-Kept ctx.overlayroot n w (mount_overlay env cfg ctx c effective v).0
                (λ k. kept k ∙ ap (λ tb. view tb k) st)))
      ]

  with_dirs-Outcome :
      (root : Text) (w : World) (o : Option Ctx)
      → CanTrack c w
      → Outcome w (with_dirs env cfg c w root o)
  unfolding with_dirs
  with_dirs-Outcome root w none t = inr (λ k. refl)
  with_dirs-Outcome root w (some ctx) t =
      finish-Outcome ctx w (effective_lowerdir env root c w) t (lower-Same root w)

  -- On each of its ways, mount_sandbox either returns 0 with the overlay mounted, its entry alone set in the
  -- table, and its export ensured with success, or leaves every entry of the table as it was. This supposes that
  -- the mount point is not tracked yet, fits, and finds room in the table.
  pub mount_sandbox-Outcome : (w : World) → CanTrack c w → Outcome w (mount_sandbox env cfg c w)
  unfolding mount_sandbox
  mount_sandbox-Outcome w t =
      let root = overlayroot_for cfg c in
      let rest = with_dirs-Outcome root w (setup_overlay_dirs root c.sandboxname) t in
      elim (Bool-cases (is_empty root || is_empty c.lowerdir)) [
        | inl e1 ↦ rw e1 (inr (λ k. refl))
        | inr e1 ↦ elim (Bool-cases (reported c.sandboxname w)) [
          | inl e2 ↦ rw (e1, e2) (inr (λ k. refl))
          | inr e2 ↦ elim (Bool-cases (env.accessible c.sandboxname)) [
            | inl e3 ↦ rw (e1, e2, e3) rest
            | inr e3 ↦ rw (e1, e2, e3) (inr (λ k. refl))
          ]
        ]
      ]
