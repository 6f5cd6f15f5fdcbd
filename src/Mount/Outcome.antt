-- ===== src/Mount/Outcome.antt =====
-- What mount_sandbox of mbroker/daemon/mount_ops.c makes of the mount table and the exports file.
use aiomb.Prelude.{
  ℕ, zero, suc, ◌<◌, [], ◌∷◌, ◌++◌, Bool, true, false, ◌||◌, none, some, Text, is_empty, leb,
  length, if◌then◌else◌, ◌≡◌, refl, sym, ap, ◌∙◌, ◌⊎◌, inl, inr, Bool-cases, arith, text_eq,
  text_eq_refl, text_eq_sound,
}
use mathlib.Core.Path.{subst}
use aiomb.MountInfo.{mountinfo_track, mountinfo_untrack}
use aiomb.MountInfo.Slots.{view, stored}
use aiomb.MountInfo.Bounds.{IsValid}
use aiomb.MountInfo.Lookup.{view-mountinfo_track, view-mountinfo_untrack}
use aiomb.MountInfo.Invariant.{mountinfo_track-IsValid}
use aiomb.Exports.{ensure_overlay_export}
use aiomb.DaemonConfig.{DaemonConfig}
use aiomb.Mount.{
  World, Env, prepare_whiteouts, chown_dirs, Ctx, set_errno, enotsup, put, mount_at, detach,
}
use aiomb.Mount.Lower.{undo_mounts}
use aiomb.Mount.Create.{
  Create, other_device, overlay_opts, after_mount, mount_overlay, save_mount_record, tracked_meta,
}
use aiomb.Mount.Undo.{Same}

-- The overlay is mounted, tracked and exported.
abbrev pub Created : Env → Create → World → World → Type 0
Created env c w v =
    (ctx : Ctx) × (v.mounted c.sandboxname ≡ true)
    × ((ensure_overlay_export env.ensure w.exports c.sandboxname).ok ≡ true)
    × (v.exports ≡ (ensure_overlay_export env.ensure w.exports c.sandboxname).file)
    × ((k : Text)
        → view v.table k ≡ (
            if text_eq c.sandboxname k then some (stored (tracked_meta ctx c)) else view w.table k))

-- The table tracks what it did.
abbrev pub Kept : World → World → Type 0
Kept w v = (k : Text) → view v.table k ≡ view w.table k

-- The conditions on the table under which tracking the mount point succeeds.
pub record CanTrack (c : Create) (w : World) : Type 0 where
  pub valid : IsValid w.table
  pub fits : length c.sandboxname < 2048
  pub absent : view w.table c.sandboxname ≡ none
  pub room : (ctx : Ctx) → (mountinfo_track c.sandboxname (tracked_meta ctx c) w.table).1 ≡ true

pub save-keeps :
    (env : Env) (ctx : Ctx) (c : Create) (effective : Text) (w : World)
    → ((save_mount_record env ctx c effective w).table ≡ w.table)
      × ((save_mount_record env ctx c effective w).mounted ≡ w.mounted)
      × ((save_mount_record env ctx c effective w).exports ≡ w.exports)
unfolding save_mount_record
save-keeps env ctx c effective w = ground arith

pub detach-table : (env : Env) (p : Text) (w : World) → (detach env p w).table ≡ w.table
unfolding detach
detach-table env p w = ground arith

pub undo_mounts-Same :
    (env : Env) (target : ℕ → Text) (n : ℕ) (w : World) → Same w (undo_mounts env target n w)
unfolding undo_mounts detach
undo_mounts-Same env target zero w = (refl, refl, refl, refl)
undo_mounts-Same env target (suc n) w = let h = undo_mounts-Same env target n w in ground arith

module _ (env : Env) (cfg : DaemonConfig) (c : Create) where
  -- What becomes of a sandbox from a world with the table and the exports of `w`.
  abbrev pub Result : World → World × Bool → Type 0
  Result w r = ((r.1 ≡ true) × Created env c w r.0) ⊎ ((r.1 ≡ false) × Kept w r.0)

  tracked_view :
      (w : World) (ctx : Ctx)
      → CanTrack c w
      → (k : Text)
      → view (mountinfo_track c.sandboxname (tracked_meta ctx c) w.table).0 k
        ≡ (if text_eq c.sandboxname k then some (stored (tracked_meta ctx c)) else view w.table k)
  tracked_view w ctx t k =
      view-mountinfo_track c.sandboxname k (tracked_meta ctx c) w.table t.fits (t.room ctx)

  untracked_view :
      (w : World) (ctx : Ctx)
      → CanTrack c w
      → (k : Text)
      → view
          (mountinfo_untrack c.sandboxname
            (mountinfo_track c.sandboxname (tracked_meta ctx c) w.table).0)
          k
        ≡ view w.table k
  untracked_view w ctx t k =
      let tracked = (mountinfo_track c.sandboxname (tracked_meta ctx c) w.table).0 in
      let v = mountinfo_track-IsValid c.sandboxname (tracked_meta ctx c) w.table t.fits t.valid in
      let u = view-mountinfo_untrack c.sandboxname k tracked v.distinct in
      elim (Bool-cases (text_eq c.sandboxname k)) [
        | inl e ↦
            let there = ap (view w.table) (text_eq_sound c.sandboxname k e) in
            u ∙ rw e (sym t.absent ∙ there)
        | inr e ↦ u ∙ rw e (tracked_view w ctx t k ∙ rw e refl)
      ]

  after_mount-Result :
      (ctx : Ctx) (effective : Text) (w : World)
      → CanTrack c w
      → w.mounted c.sandboxname ≡ true
      → Result w (after_mount env cfg ctx c effective w)
  unfolding after_mount
  after_mount-Result ctx effective w t m =
      let mp = c.sandboxname in
      let exported = ensure_overlay_export env.ensure w.exports mp in
      let tracked = (mountinfo_track mp (tracked_meta ctx c) w.table).0 in
      let jobs =
        if is_empty cfg.post_mount_chown_dirs then w.jobs else w.jobs ++ chown_dirs mp ∷ [] in
      let done = record w { table = tracked; exports = exported.file; jobs = jobs } in
      let failed = record w { table = mountinfo_untrack mp tracked; exports = exported.file } in
      let (st, sm, sx) = save-keeps env ctx c effective done in
      elim (Bool-cases exported.ok) [
        | inl e ↦
            let made : Created env c w (save_mount_record env ctx c effective done) = (
              ctx,
              ap (λ f. f mp) sm ∙ m,
              e,
              sx,
              λ k. ap (λ tb. view tb k) st ∙ tracked_view w ctx t k,
            ) in
            let r : after_mount env cfg ctx c effective w
                ≡ (save_mount_record env ctx c effective done, true) =
              rw e refl in
            subst (Result w) (sym r) (inl (refl, made))
        | inr e ↦
            let r : after_mount env cfg ctx c effective w ≡ (detach env mp failed, false) =
              rw e refl in
            let kept : Kept w (detach env mp failed) =
              λ k. ap (λ tb. view tb k) (detach-table env mp failed) ∙ untracked_view w ctx t k in
            subst (Result w) (sym r) (inr (refl, kept))
      ]

  pub mount_overlay-Result :
      (ctx : Ctx) (effective : Text) (w : World)
      → CanTrack c w
      → Result w (mount_overlay env cfg ctx c effective w)
  unfolding mount_overlay mount_at put
  mount_overlay-Result ctx effective w t =
      let jobs =
        if is_empty cfg.post_mount_whiteout_dirs
        then w.jobs
        else w.jobs ++ prepare_whiteouts effective ctx.upperdir ∷ [] in
      let w' = mount_at c.sandboxname (record w { jobs = jobs }) in
      let late = record w { jobs = jobs } in
      let stopped : (v : World) → Kept w v → Result w (v, false) = λ v k. inr (refl, k) in
      let mounted : w'.mounted c.sandboxname ≡ true = rw (text_eq_refl c.sandboxname) refl in
      let after =
        after_mount-Result ctx effective w'
          (record { valid = t.valid; fits = t.fits; absent = t.absent; room = t.room }) mounted in
      elim (Bool-cases (env.fails_overlay || other_device env ctx)) [
        | inl e1 ↦
            let r : mount_overlay env cfg ctx c effective w ≡ (w, false) = rw e1 refl in
            subst (Result w) (sym r) (stopped w (λ k. refl))
        | inr e1 ↦ elim (Bool-cases (env.on_overlay ctx.upperdir || env.on_overlay ctx.workdir)) [
          | inl e2 ↦
              let r : mount_overlay env cfg ctx c effective w ≡ (set_errno enotsup w, false) =
                rw (e1, e2) refl in
              subst (Result w) (sym r) (stopped (set_errno enotsup w) (λ k. refl))
          | inr e2 ↦ elim (Bool-cases (leb 8192 (length (overlay_opts ctx c effective)))) [
            | inl e3 ↦
                let r : mount_overlay env cfg ctx c effective w ≡ (late, false) =
                  rw (e1, e2, e3) refl in
                subst (Result w) (sym r) (stopped late (λ k. refl))
            | inr e3 ↦ elim (Bool-cases (env.mounts (overlay_opts ctx c effective) c.sandboxname)) [
              | inl e4 ↦
                  let r : mount_overlay env cfg ctx c effective w
                      ≡ after_mount env cfg ctx c effective w' =
                    rw (e1, e2, e3, e4) refl in
                  subst (Result w) (sym r) after
              | inr e4 ↦
                  let failed = set_errno (env.error c.sandboxname) late in
                  let r : mount_overlay env cfg ctx c effective w ≡ (failed, false) =
                    rw (e1, e2, e3, e4) refl in
                  subst (Result w) (sym r) (stopped failed (λ k. refl))
            ]
          ]
        ]
      ]
