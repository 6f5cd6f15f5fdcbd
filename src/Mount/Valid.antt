-- ===== src/Mount/Valid.antt =====
-- Creating and destroying a sandbox keep the mount table well formed.
use aiomb.Prelude.{
  ℕ, ◌<◌, [], ◌∷◌, ◌++◌, ◌||◌, ◌&&◌, not, Option, none, some, Text, ◌==◌, leb, ltb, length,
  is_empty, if◌then◌else◌, sym, inl, inr, Bool-cases, Option-cases,
}
use mathlib.Core.Path.{subst}
use aiomb.CString.{fit}
use aiomb.MountInfo.{mountinfo_overlayroot_for, mountinfo_track}
use aiomb.MountInfo.Bounds.{IsValid}
use aiomb.MountInfo.Invariant.{mountinfo_track-IsValid, untrack, after-IsValid}
use aiomb.Exports.{ensure_overlay_export}
use aiomb.DaemonConfig.{DaemonConfig}
use aiomb.Mount.{
  reported, World, Env, Ctx, clower, mount_at, prepare_whiteouts, cleanup_custom_nfs_mounts,
  setup_overlay_dirs,
}
use aiomb.Mount.Lower.{Lower}
use aiomb.Mount.Create.{
  Create, tracked_meta, effective_lowerdir, after_mount, mount_overlay, err, finish, other_device,
  overlay_opts, overlayroot_for, with_dirs, mount_sandbox,
}
use aiomb.Mount.Destroy.{umount_owned, umount_sandbox, tracked_or, unmount_overlay, forget}
use aiomb.Mount.Outcome.{detach-table, save-keeps}
use aiomb.Mount.Denied.{cleanup_from-table, forget-keeps, unmount_overlay-table}
use aiomb.Mount.Sandbox.{lower-Same}

abbrev pub TableIsValid : World → Type 0
TableIsValid w = IsValid w.table

module _ (env : Env) (cfg : DaemonConfig) (c : Create) (fits : length c.sandboxname < 2048) where
  after_mount-Valid :
      (ctx : Ctx) (effective : Text) (w : World)
      → TableIsValid w
      → TableIsValid (after_mount env cfg ctx c effective w).0
  unfolding after_mount
  after_mount-Valid ctx effective w v =
      let tracked = (mountinfo_track c.sandboxname (tracked_meta ctx c) w.table).0 in
      let valid = mountinfo_track-IsValid c.sandboxname (tracked_meta ctx c) w.table fits v in
      elim (Bool-cases ((ensure_overlay_export env.ensure w.exports c.sandboxname).ok)) [
        | inl e ↦ rw e (subst IsValid (sym (save-keeps env ctx c effective _).0) valid)
        | inr e ↦ rw e (
            subst IsValid (sym (detach-table env c.sandboxname _))
              (after-IsValid (untrack c.sandboxname) tracked tt valid))
      ]

  mount_overlay-Valid :
      (ctx : Ctx) (effective : Text) (w : World)
      → TableIsValid w
      → TableIsValid (mount_overlay env cfg ctx c effective w).0
  unfolding mount_overlay mount_at
  mount_overlay-Valid ctx effective w v =
      let jobs =
        if is_empty cfg.post_mount_whiteout_dirs
        then w.jobs
        else w.jobs ++ prepare_whiteouts effective ctx.upperdir ∷ [] in
      elim (Bool-cases (env.fails_overlay || other_device env ctx)) [
        | inl e1 ↦ rw e1 v
        | inr e1 ↦ elim (Bool-cases (env.on_overlay ctx.upperdir || env.on_overlay ctx.workdir)) [
          | inl e2 ↦ rw (e1, e2) v
          | inr e2 ↦ elim (Bool-cases (leb 8192 (length (overlay_opts ctx c effective)))) [
            | inl e3 ↦ rw (e1, e2, e3) v
            | inr e3 ↦ elim (Bool-cases (env.mounts (overlay_opts ctx c effective) c.sandboxname)) [
              | inl e4 ↦
                  rw (e1, e2, e3, e4)
                    (after_mount-Valid ctx effective
                      (mount_at c.sandboxname (record w { jobs = jobs })) v)
              | inr e4 ↦ rw (e1, e2, e3, e4) v
            ]
          ]
        ]
      ]

  err-Valid :
      (root : Text) (n : ℕ) (w : World) → TableIsValid w → TableIsValid (err env root c n w).0
  unfolding cleanup_custom_nfs_mounts
  err-Valid root n w v =
      let cleaned = cleanup_from-table env (λ i. fit 4096 (clower root c.sandboxname i)) 16 0 w in
      elim (Bool-cases (ltb 0 n)) [
        | inl e ↦ rw e (subst IsValid (sym cleaned.0) v)
        | inr e ↦ rw e v
      ]

  finish-Valid :
      (ctx : Ctx) (r : Lower) → TableIsValid r.0 → TableIsValid (finish env cfg ctx c r).0
  unfolding finish
  finish-Valid ctx (w, none) v = err-Valid ctx.overlayroot 0 w v
  finish-Valid ctx (w, some (effective, n)) v =
      let made = mount_overlay-Valid ctx effective w v in
      elim (Bool-cases (mount_overlay env cfg ctx c effective w).1) [
        | inl e ↦ rw e made
        | inr e ↦ rw e (err-Valid ctx.overlayroot n _ made)
      ]

  with_dirs-Valid :
      (root : Text) (w : World) (o : Option Ctx)
      → TableIsValid w
      → TableIsValid (with_dirs env cfg c w root o).0
  unfolding with_dirs
  with_dirs-Valid root w none v = v
  with_dirs-Valid root w (some ctx) v =
      finish-Valid ctx (effective_lowerdir env root c w)
        (subst IsValid (sym (lower-Same env cfg c root w).0) v)

  pub mount_sandbox-Valid :
      (w : World) → TableIsValid w → TableIsValid (mount_sandbox env cfg c w).0
  unfolding mount_sandbox
  mount_sandbox-Valid w v =
      let root = overlayroot_for cfg c in
      let rest = with_dirs-Valid root w (setup_overlay_dirs root c.sandboxname) v in
      elim (Bool-cases (is_empty root || is_empty c.lowerdir)) [
        | inl e1 ↦ rw e1 v
        | inr e1 ↦ elim (Bool-cases (reported c.sandboxname w)) [
          | inl e2 ↦ rw (e1, e2) v
          | inr e2 ↦ elim (Bool-cases (env.accessible c.sandboxname)) [
            | inl e3 ↦ rw (e1, e2, e3) rest
            | inr e3 ↦ rw (e1, e2, e3) v
          ]
        ]
      ]

umount_owned-Valid :
    (env : Env) (cfg : DaemonConfig) (mp : Text) (flags requester uid : ℕ) (w : World)
    → TableIsValid w
    → TableIsValid (umount_owned env cfg mp flags requester w uid).0
unfolding umount_owned
umount_owned-Valid env cfg mp flags requester uid w v =
    let root = tracked_or cfg (mountinfo_overlayroot_for mp w.table) in
    let w' = (unmount_overlay env mp flags w).0 in
    let valid : TableIsValid w' = subst IsValid (sym (unmount_overlay-table env mp flags w).0) v in
    let gone : TableIsValid (forget env root mp w') =
      subst IsValid (sym (forget-keeps env root mp w').0)
        (after-IsValid (untrack mp) w'.table tt valid) in
    elim (Bool-cases (not (requester == 0) && not (uid == requester))) [
      | inl e1 ↦ rw e1 v
      | inr e1 ↦ elim (Bool-cases (is_empty root)) [
        | inl e2 ↦ rw (e1, e2) v
        | inr e2 ↦ elim (Bool-cases (unmount_overlay env mp flags w).1) [
          | inl e3 ↦ rw (e1, e2, e3) gone
          | inr e3 ↦ rw (e1, e2, e3) valid
        ]
      ]
    ]

pub umount_sandbox-Valid :
    (env : Env) (cfg : DaemonConfig) (mp : Text) (flags requester : ℕ) (w : World)
    → TableIsValid w
    → TableIsValid (umount_sandbox env cfg mp flags requester w).0
unfolding umount_sandbox
umount_sandbox-Valid env cfg mp flags requester w v = elim (Option-cases (env.owner mp)) [
  | inl e ↦ rw (e, umount_sandbox) v
  | inr (uid, e) ↦ rw (e, umount_sandbox) (umount_owned-Valid env cfg mp flags requester uid w v)
]
