-- ===== src/Broker/Guards.antt =====
-- The guards and the replies of handle_client.
use aiomb.Prelude.{
  [], ◌++◌, ◌==◌, if◌then◌else◌, ℕ, Bool, true, false, ◌||◌, ◌&&◌, not, some, codes, is_empty, ◌≡◌,
  ◌≢◌, refl, ap, ◌∙◌, inl, inr, Bool-cases, Option-cases, arith,
}
use aiomb.CString.{fit}
use aiomb.MountInfo.{mountinfo_baas_info_for}
use aiomb.DaemonConfig.{DaemonConfig}
use aiomb.Mount.{World, Env, einval, eperm, enotsup}
use aiomb.Mount.Create.{has_flag, Create, mount_sandbox}
use aiomb.Mount.Destroy.{umount_sandbox}
use aiomb.Mount.Denied.{umount_sandbox_denied}
use aiomb.Broker.{
  Cmd, create, destroy, cmd_of, Request, Reply, Service, details, terminated, do_destroy, dispatch,
  explained, why, plain, gated, after_create, do_create, is_create, handle_client,
}

-- What a create asks of mount_sandbox, once the strings of the request are ended.
abbrev pub create_of : Request → Create
create_of r = record {
  sandboxname = fit 2048 r.sandboxname;
  uid = r.uid;
  gid = r.gid;
  flags = r.flags;
  lowerdir = fit 2048 r.lowerdir;
  overlayroot = fit 2048 r.overlayroot;
  baas_path = fit 512 r.baas_path;
  prebuild_sb = fit 256 r.prebuild_sb;
}

module _ (sys : Service) (env : Env) (cfg : DaemonConfig) where
  -- A request for promotion or a change of owner that is not a create with a path gets EINVAL, and
  -- changes nothing.
  pub handle_client_refused :
      (r : Request) (w : World)
      → (has_flag r.flags 4 || has_flag r.flags 8) ≡ true
      → (not (is_create (cmd_of r.cmd)) || is_empty (fit 2048 r.sandboxname)) ≡ true
      → ((handle_client sys env cfg r w).0 ≡ w)
        × ((handle_client sys env cfg r w).1.status ≡ einval)
  unfolding handle_client
  handle_client_refused r w flag elsewhere = elim (Bool-cases (has_flag r.flags 4)) [
    | inl e ↦ rw (e, elsewhere) (refl, refl)
    | inr e ↦ rw (e, elsewhere) (ground arith)
  ]

  two_destroys : cmd_of 2 ≡ destroy
  unfolding cmd_of
  two_destroys = refl

  status-explained :
      (cmd : Cmd) (r : Request) (rep : Reply)
      → (explained sys env cfg cmd r rep).status ≡ rep.status
  unfolding explained
  status-explained cmd r rep = ground arith

  neither : (a b : Bool) → (a || b) ≡ false → (a ≡ false) × (b ≡ false)
  neither a b h = ground arith

  denied_reply :
      (q : Request) (w : World)
      → umount_sandbox env cfg q.sandboxname q.flags q.uid w ≡ (w, eperm)
      → ((dispatch sys env cfg destroy q w).0 ≡ w)
        × ((dispatch sys env cfg destroy q w).1.status ≡ eperm)
  unfolding dispatch do_destroy
  denied_reply q w u = elim (Option-cases (mountinfo_baas_info_for q.sandboxname 512 256 w.table)) [
    | inl e ↦ rw (e, u, do_destroy) (refl, refl)
    | inr ((baas, prebuild), e) ↦ rw (e, u, do_destroy) (refl, refl)
  ]

  -- A destroy of a user who is not root and does not own the mount point, without the flags of promotion and of a change
  -- of owner, is denied: nothing changes.
  -- The user is the one that the request names.
  pub handle_client_denied :
      (r : Request) (w : World) (owner : ℕ)
      → r.cmd ≡ 2
      → (has_flag r.flags 4 || has_flag r.flags 8) ≡ false
      → env.owner (fit 2048 r.sandboxname) ≡ some owner
      → r.uid ≢ 0
      → r.uid ≢ owner
      → ((handle_client sys env cfg r w).0 ≡ w) × ((handle_client sys env cfg r w).1.status ≡ eperm)
  unfolding handle_client
  handle_client_denied r w owner is_destroy flags owned root other =
      let q = terminated r in
      let u = umount_sandbox_denied env cfg q.sandboxname q.flags q.uid owner w owned root other in
      let cmd : cmd_of r.cmd ≡ destroy = ap cmd_of is_destroy ∙ two_destroys in
      let (f4, f8) = neither (has_flag r.flags 4) (has_flag r.flags 8) flags in
      let (kept, status) = denied_reply q w u in
      rw (f4, f8, cmd)
        (kept, status-explained destroy q (dispatch sys env cfg destroy q w).1 ∙ status)

  open_gates :
      (a b : Bool) (w : World) (x : World × Reply) → gated (a && false) (b && false) w x ≡ x
  open_gates true true w x = refl
  open_gates true false w x = refl
  open_gates false true w x = refl
  open_gates false false w x = refl

  one_creates : cmd_of 1 ≡ create
  unfolding cmd_of
  one_creates = refl

  failed_create :
      (r : Request) (w : World)
      → ((mount_sandbox env cfg (create_of r) w).1 == 0) ≡ false
      → dispatch sys env cfg create (terminated r) w ≡ (
        (mount_sandbox env cfg (create_of r) w).0,
        plain (mount_sandbox env cfg (create_of r) w).1 [],
      )
  unfolding dispatch do_create after_create
  failed_create r w h = rw h refl

  explains :
      (r : Request) (n : ℕ)
      → (n == 0) ≡ false
      → explained sys env cfg create (terminated r) (plain n [])
        ≡ plain n (
            details (
              if n == enotsup
              then codes "Upper/work dirs are on an overlayfs; check overlayroot setting"
              else codes "create failed at '"
                ++ fit 2048 r.sandboxname
                ++ codes "': "
                ++ sys.strerror n))
  unfolding explained why
  explains r n h = rw h refl

  -- A create for a path, for which mount_sandbox fails, gets the size of that errno, the world that mount_sandbox has
  -- left, and a text: for ENOTSUP, the hint at the overlay root; for any other errno, the command, the path as the
  -- broker has ended it, and the name of the errno; each cut to fit the reply.
  pub handle_client_explains :
      (r : Request) (w : World)
      → r.cmd ≡ 1
      → is_empty (fit 2048 r.sandboxname) ≡ false
      → (mount_sandbox env cfg (create_of r) w).1 ≢ 0
      → handle_client sys env cfg r w ≡ (
        (mount_sandbox env cfg (create_of r) w).0,
        plain (mount_sandbox env cfg (create_of r) w).1 (
            fit 16384 (
              if (mount_sandbox env cfg (create_of r) w).1 == 95
              then codes "Upper/work dirs are on an overlayfs; check overlayroot setting"
              else codes "create failed at '"
                ++ fit 2048 r.sandboxname
                ++ codes "': "
                ++ sys.strerror (mount_sandbox env cfg (create_of r) w).1)),
      )
  unfolding handle_client
  handle_client_explains r w is_create named fails =
      let n = (mount_sandbox env cfg (create_of r) w).1 in
      let cmd : cmd_of r.cmd ≡ create = ap cmd_of is_create ∙ one_creates in
      let nonzero : (n == 0) ≡ false = ground arith in
      rw (cmd, named, failed_create r w nonzero, explains r n nonzero)
        (open_gates (has_flag r.flags 4) (has_flag r.flags 8) w _)
