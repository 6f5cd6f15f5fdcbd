-- ===== src/Mount/Denied.antt =====
-- Who may destroy a sandbox, and what a destroy leaves.
use aiomb.Prelude.{
  ℕ, zero, suc, ◌+◌, none, some, Text, if◌then◌else◌, ◌≡◌, ◌≢◌, refl, ap, ◌∙◌, inl, inr,
  Option-cases, arith, text_eq,
}
use aiomb.CString.{fit}
use aiomb.MountInfo.{mountinfo_overlayroot_for, mountinfo_untrack}
use aiomb.MountInfo.Slots.{view, Distinct}
use aiomb.MountInfo.Lookup.{view-mountinfo_untrack}
use aiomb.Exports.{remove_overlay_export}
use aiomb.DaemonConfig.{DaemonConfig}
use aiomb.Mount.{World, Env, eperm, detach, cleanup_from, cleanup_custom_nfs_mounts, clower}
use aiomb.Mount.Destroy.{
  unmount_overlay, discard, discard_dirs, remove_record, forget, tracked_or, umount_owned,
  umount_sandbox,
}

-- A request of a user who is neither root nor the owner of the mount point is refused with EPERM, and
-- changes nothing.
pub umount_sandbox_denied :
    (env : Env) (cfg : DaemonConfig) (mp : Text) (flags requester owner : ℕ) (w : World)
    → env.owner mp ≡ some owner
    → requester ≢ 0
    → requester ≢ owner
    → umount_sandbox env cfg mp flags requester w ≡ (w, eperm)
unfolding umount_sandbox umount_owned
umount_sandbox_denied env cfg mp flags requester owner w e root other =
    rw (e, umount_sandbox) (ground arith)

-- A pass over the NFS mounts keeps the table and the exports file.
pub cleanup_from-table :
    (env : Env) (target : ℕ → Text) (fuel i : ℕ) (w : World)
    → ((cleanup_from env target fuel i w).table ≡ w.table)
      × ((cleanup_from env target fuel i w).exports ≡ w.exports)
unfolding cleanup_from detach
cleanup_from-table env target zero i w = (refl, refl)
cleanup_from-table env target (suc fuel) i w =
    ground (arith, cleanup_from-table env target fuel (i + 1) (detach env (target i) w))

discard-keeps : (env : Env) (p : Text) (w : World) → (discard env p w).mounted ≡ w.mounted
unfolding discard
discard-keeps env p w = ground arith

pub forget-keeps :
    (env : Env) (root mp : Text) (w : World)
    → ((forget env root mp w).table ≡ mountinfo_untrack mp w.table)
      × ((forget env root mp w).exports ≡ (remove_overlay_export env.remove w.exports mp).file)
unfolding forget cleanup_custom_nfs_mounts
forget-keeps env root mp w =
    cleanup_from-table env (λ i. fit 4096 (clower root mp i)) 16 0
      (record (remove_record root mp (discard_dirs env root mp w)) {
        table = mountinfo_untrack mp w.table;
        exports = (remove_overlay_export env.remove w.exports mp).file;
      })

pub unmount_overlay-table :
    (env : Env) (mp : Text) (flags : ℕ) (w : World)
    → ((unmount_overlay env mp flags w).0.table ≡ w.table)
      × ((unmount_overlay env mp flags w).0.exports ≡ w.exports)
unfolding unmount_overlay
unmount_overlay-table env mp flags w = ground arith

owned_done :
    (env : Env) (cfg : DaemonConfig) (mp : Text) (flags requester : ℕ) (w : World) (uid : ℕ)
    → 0 ≢ env.error mp
    → (umount_owned env cfg mp flags requester w uid).1 ≡ 0
    → ((umount_owned env cfg mp flags requester w uid).0.table ≡ mountinfo_untrack mp w.table)
      × ((umount_owned env cfg mp flags requester w uid).0.exports
          ≡ (remove_overlay_export env.remove w.exports mp).file)
unfolding umount_owned
owned_done env cfg mp flags requester w uid errs zero_status =
    let w' = (unmount_overlay env mp flags w).0 in
    let root = tracked_or cfg (mountinfo_overlayroot_for mp w.table) in
    let (t, x) = forget-keeps env root mp w' in
    let (t', x') = unmount_overlay-table env mp flags w in
    let t'' = t ∙ ap (mountinfo_untrack mp) t' in
    let x'' = x ∙ ap (λ o. (remove_overlay_export env.remove o mp).file) x' in ground arith

-- A destroy that returns 0 takes the mount point, and no other, out of the table, and leaves the exports
-- file as remove_overlay_export does.
pub umount_sandbox_done :
    (env : Env) (cfg : DaemonConfig) (mp : Text) (flags requester : ℕ) (w : World) (k : Text)
    → Distinct w.table
    → 0 ≢ env.error mp
    → (umount_sandbox env cfg mp flags requester w).1 ≡ 0
    → (view (umount_sandbox env cfg mp flags requester w).0.table k
        ≡ (if text_eq mp k then none else view w.table k))
      × ((umount_sandbox env cfg mp flags requester w).0.exports
          ≡ (remove_overlay_export env.remove w.exports mp).file)
unfolding umount_sandbox
umount_sandbox_done env cfg mp flags requester w k d errs zero_status =
    elim (Option-cases (env.owner mp)) [
      | inl e ↦ let h : env.error mp ≡ 0 = (rw (e, umount_sandbox) at zero_status) in ground arith
      | inr (uid, e) ↦
          let (t, x) =
            owned_done env cfg mp flags requester w uid errs
              (rw (e, umount_sandbox) at zero_status) in
          rw (e, umount_sandbox) (ap (λ r. view r k) t ∙ view-mountinfo_untrack mp k w.table d, x)
    ]
