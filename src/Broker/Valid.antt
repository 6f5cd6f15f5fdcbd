-- ===== src/Broker/Valid.antt =====
-- Every request that mbroker/daemon/broker.c serves keeps the mount table well formed.
use aiomb.Prelude.{
  ℕ, ◌<◌, List, [], ◌∷◌, Bool, true, false, ◌||◌, ◌&&◌, not, Option, none, some, Text, ◌==◌, length,
  is_empty, All, ◌≡◌, sym, arith, inl, inr, Bool-cases,
}
use mathlib.Core.Path.{subst}
use aiomb.CString.Laws.{length-fit}
use aiomb.MountInfo.{mountinfo_describe_all, mountinfo_baas_info_for}
use aiomb.MountInfo.Bounds.{IsValid}
use aiomb.MountInfo.Invariant.{mountinfo_track-IsValid, after-IsValid, describe_all}
use aiomb.DaemonConfig.{DaemonConfig}
use aiomb.Mount.{reported, World, Env}
use aiomb.Mount.Create.{Create, has_flag, mount_sandbox}
use aiomb.Mount.Valid.{TableIsValid, mount_sandbox-Valid, umount_sandbox-Valid}
use aiomb.Recover.{
  Saved, Entry, unparsed, parsed, Recovery, or_empty, begin, retrack, remount, remounted,
  restore_named, restore_one, restore_all, restore_mounts,
}
use aiomb.Broker.{
  Request, Reply, Cmd, create, destroy, refresh, sandbox_list, recover, unknown, cmd_of, Service,
  terminated, is_create, gated, destroyed, listed, after_create, do_create, do_destroy, do_list,
  do_recover, dispatch, handle_client, reply_details_max,
}

-- A name of a saved record that fits the field of a request.
abbrev pub NameFits : Option Text → Type 0
NameFits none = Unit {0}
NameFits (some name) = length name < 2048

abbrev pub EntryFits : Entry → Type 0
EntryFits unparsed = Unit {0}
EntryFits (parsed s) = NameFits s.sandboxname

-- The records that a recovery finds, if it finds any.
abbrev pub EntriesFit : Option (List Entry) → Type 0
EntriesFit none = Unit {0}
EntriesFit (some es) = All EntryFits es

module _ (strerror : ℕ → Text) (env : Env) (cfg : DaemonConfig) (size : ℕ) where
  remount-Valid :
      (name lower : Text) (s : Saved) (r : Recovery)
      → length name < 2048
      → TableIsValid r.world
      → TableIsValid (remount strerror env cfg size name lower s r).world
  unfolding remount
  remount-Valid name lower s r lt v =
      let made =
        mount_sandbox-Valid env cfg
          (record {
            sandboxname = name;
            uid = s.uid;
            gid = s.gid;
            flags = s.flags;
            lowerdir = lower;
            overlayroot = or_empty s.custom_overlayroot;
            baas_path = or_empty s.baas_path;
            prebuild_sb = or_empty s.prebuild_sb;
          })
          lt r.world v in
      elim (Bool-cases ((remounted strerror env cfg size name lower s r).1 == 0)) [
        | inl e ↦ rw e made
        | inr e ↦ rw e made
      ]

  restore_named-Valid :
      (name lower : Option Text) (s : Saved) (r : Recovery)
      → NameFits name
      → TableIsValid r.world
      → TableIsValid (restore_named strerror env cfg size name lower s r).world
  unfolding retrack
  restore_named-Valid none lower s r f v = v
  restore_named-Valid (some name) none s r f v = v
  restore_named-Valid (some name) (some lower) s r f v = elim (Bool-cases (reported name r.world)) [
    | inl e ↦ rw e (mountinfo_track-IsValid name _ r.world.table f v)
    | inr e ↦ rw e (remount-Valid name lower s r f v)
  ]

  restore_all-Valid :
      (es : List Entry) (r : Recovery)
      → All EntryFits es
      → TableIsValid r.world
      → TableIsValid (restore_all strerror env cfg size es r).world
  unfolding restore_all restore_one
  restore_all-Valid [] r f v = v
  restore_all-Valid (unparsed ∷ es) r f v =
      restore_all-Valid es (restore_one strerror env cfg size unparsed r) f.1 v
  restore_all-Valid (parsed s ∷ es) r f v =
      restore_all-Valid es (restore_one strerror env cfg size (parsed s) r) f.1
        (restore_named-Valid s.sandboxname s.lowerdir s r f.0 v)

  restore_mounts-Valid :
      (conf_path : Text) (open_error : ℕ) (entries : Option (List Entry)) (w : World)
      → EntriesFit entries
      → TableIsValid w
      → TableIsValid (restore_mounts strerror env cfg size conf_path open_error entries w).0.world
  unfolding restore_mounts
  restore_mounts-Valid conf_path open_error none w f v =
      elim (Bool-cases (is_empty cfg.overlayroot)) [ inl e ↦ rw e v | inr e ↦ rw e v ]
  restore_mounts-Valid conf_path open_error (some es) w f v =
      elim (Bool-cases (is_empty cfg.overlayroot)) [
        | inl e ↦ rw e v
        | inr e ↦ rw e (restore_all-Valid es (begin w) f v)
      ]

module _ (sys : Service) (env : Env) (cfg : DaemonConfig) where
  after_create-table :
      (r : Request) (w : World) (status : ℕ)
      → (after_create sys env cfg r w status).0.table ≡ w.table
  unfolding after_create
  after_create-table r w status = ground arith

  destroyed-Valid :
      (o : Option (Text × Text)) (r : World × ℕ)
      → TableIsValid r.0
      → TableIsValid (destroyed sys env cfg o r).0
  destroyed-Valid none (w, status) v = v
  destroyed-Valid (some (baas, prebuild)) (w, status) v = elim (Bool-cases (status == 0)) [
    | inl e ↦ rw e v
    | inr e ↦ rw e v
  ]

  listed-Valid :
      (o : Option Text) (w : World) → TableIsValid w → TableIsValid (listed sys env cfg o w).0
  listed-Valid none w v = v
  listed-Valid (some text) w v = v

  dispatch-Valid :
      (cmd : Cmd) (r : Request) (w : World)
      → length r.sandboxname < 2048
      → EntriesFit sys.entries
      → TableIsValid w
      → TableIsValid (dispatch sys env cfg cmd r w).0
  unfolding dispatch do_create do_destroy do_list do_recover
  dispatch-Valid create r w lt f v =
      let c : Create = record {
        sandboxname = r.sandboxname;
        uid = r.uid;
        gid = r.gid;
        flags = r.flags;
        lowerdir = r.lowerdir;
        overlayroot = r.overlayroot;
        baas_path = r.baas_path;
        prebuild_sb = r.prebuild_sb;
      } in
      let (w', status) = mount_sandbox env cfg c w in
      subst IsValid (sym (after_create-table r w' status)) (mount_sandbox-Valid env cfg c lt w v)
  dispatch-Valid destroy r w lt f v =
      destroyed-Valid (mountinfo_baas_info_for r.sandboxname 512 256 w.table) _
        (umount_sandbox-Valid env cfg r.sandboxname r.flags r.uid w v)
  dispatch-Valid refresh r w lt f v = v
  dispatch-Valid sandbox_list r w lt f v =
      listed-Valid (mountinfo_describe_all (λ p. reported p w) reply_details_max w.table).1 _
        (after-IsValid (describe_all (λ p. reported p w) reply_details_max) w.table tt v)
  dispatch-Valid recover r w lt f v =
      restore_mounts-Valid sys.strerror env cfg reply_details_max sys.conf_path sys.open_error
        sys.entries w f v
  dispatch-Valid (unknown n) r w lt f v = v

  gated-Valid :
      (a b : Bool) (w : World) (served : World × Reply)
      → TableIsValid w
      → TableIsValid served.0
      → TableIsValid (gated a b w served).0
  gated-Valid true b w served v s = v
  gated-Valid false true w served v s = v
  gated-Valid false false w served v s = s

  -- Whatever a client asks, and whatever the system answers, a request leaves a well-formed table well
  -- formed, where the names in the saved records that a recovery reads are shorter than 2048 bytes. The names
  -- in the request need no condition.
  pub handle_client-Valid :
      (r : Request) (w : World)
      → EntriesFit sys.entries
      → TableIsValid w
      → TableIsValid (handle_client sys env cfg r w).0
  unfolding handle_client
  handle_client-Valid raw w f v =
      let r = terminated raw in
      let elsewhere = not (is_create (cmd_of r.cmd)) || is_empty r.sandboxname in
      gated-Valid (has_flag r.flags 4 && elsewhere) (has_flag r.flags 8 && elsewhere) w _ v
        (dispatch-Valid (cmd_of r.cmd) r w (length-fit 2048 raw.sandboxname (omega arith)) f v)
