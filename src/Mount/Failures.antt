-- ===== src/Mount/Failures.antt =====
-- The outcomes of mount_sandbox of mbroker/daemon/mount_ops.c.
use aiomb.Prelude.{
  true, false, some, Text, is_empty, ◌==◌, ◌≡◌, refl, ap, ◌∙◌, inl, inr, Bool-cases,
}
use aiomb.CString.{fit, first}
use aiomb.DaemonConfig.{DaemonConfig}
use aiomb.Mount.{reported, World, Env, Ctx, setup_overlay_dirs}
use aiomb.Mount.Create.{
  Create, effective_lowerdir, other_device, mount_overlay, finish, overlayroot_for, mount_sandbox,
  with_dirs,
}

prebuilt_lower :
    (env : Env) (root : Text) (c : Create) (w : World)
    → is_empty c.prebuild_sb ≡ false
    → (first c.lowerdir == b'/') ≡ true
    → env.accessible c.lowerdir ≡ true
    → effective_lowerdir env root c w ≡ (w, some (fit 8192 c.lowerdir, 0))
unfolding effective_lowerdir
prebuilt_lower env root c w h1 h2 h3 = rw (h1, h2, h3) refl

other_device_stops :
    (env : Env) (cfg : DaemonConfig) (ctx : Ctx) (c : Create) (effective : Text) (w : World)
    → other_device env ctx ≡ true
    → finish env cfg ctx c (w, some (effective, 0)) ≡ (w, w.errno)
unfolding finish mount_overlay
other_device_stops env cfg ctx c effective w h = elim (Bool-cases env.fails_overlay) [
  | inl e ↦ rw e refl
  | inr e ↦ rw (e, h) refl
]

-- For a prebuilt sandbox whose upper and work directories are on different devices, mount_sandbox mounts
-- nothing and returns minus the errno that an earlier call left, so 0, a success, where none failed.
pub mount_sandbox-other_device :
    (env : Env) (cfg : DaemonConfig) (c : Create) (w : World) (ctx : Ctx)
    → is_empty (overlayroot_for cfg c) ≡ false
    → is_empty c.lowerdir ≡ false
    → is_empty c.prebuild_sb ≡ false
    → (first c.lowerdir == b'/') ≡ true
    → env.accessible c.lowerdir ≡ true
    → reported c.sandboxname w ≡ false
    → env.accessible c.sandboxname ≡ true
    → setup_overlay_dirs (overlayroot_for cfg c) c.sandboxname ≡ some ctx
    → other_device env ctx ≡ true
    → mount_sandbox env cfg c w ≡ (w, w.errno)
unfolding mount_sandbox with_dirs
mount_sandbox-other_device env cfg c w ctx h1 h2 h3 h4 h5 h6 h7 h8 h9 =
    let root = overlayroot_for cfg c in
    rw (h1, h2, h6, h7, h8)
      (ap (finish env cfg ctx c) (prebuilt_lower env root c w h3 h4 h5)
        ∙ other_device_stops env cfg ctx c (fit 8192 c.lowerdir) w h9)
