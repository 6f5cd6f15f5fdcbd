-- ===== src/Recover.antt =====
-- restore_mounts of mbroker/daemon/mount_ops.c: the sandboxes of the saved records are mounted again. The
-- reader of the records is a parameter: an entry is what it found. `strerror` is a parameter too.
mod Counts
mod Examples
use aiomb.Prelude.{
  ℕ, zero, suc, ◌+◌, ◌-◌, List, [], ◌∷◌, ◌++◌, Bool, true, false, ◌||◌, ◌&&◌, not, Option, none,
  some, Text, codes, ◌==◌, ltb, length, is_empty, if◌then◌else◌,
}
use aiomb.CString.{fit}
use aiomb.MountInfo.{Meta, mountinfo_track}
use aiomb.DaemonConfig.{DaemonConfig}
use aiomb.Mount.{reported, World, Env, einval, eio, decimal}
use aiomb.Mount.Create.{Create, mount_sandbox}

-- The fields that restore_mounts takes from a record; `none` is a missing string.
pub record Saved : Type 0 where
  pub sandboxname : Option Text
  pub lowerdir : Option Text
  pub custom_overlayroot : Option Text
  pub baas_path : Option Text
  pub prebuild_sb : Option Text
  pub flags : ℕ
  pub uid : ℕ
  pub gid : ℕ

-- A readable mountinfo.json: one that cannot be parsed, or its fields.
pub data Entry : Type 0 where
  unparsed : Entry
  parsed : Saved → Entry

-- `details` with `off`; `overrun` is set by a write that starts behind the buffer, where
-- `details_size - off` has wrapped around.
pub record Report : Type 0 where
  pub buf : Text
  pub off : ℕ
  pub overrun : Bool

unfoldable pub say : ℕ → Text → Report → Report
say size line r = record {
  buf = if ltb size r.off then r.buf else r.buf ++ fit (size - r.off) line;
  off = r.off + length line;
  overrun = r.overrun || ltb size r.off;
}

pub record Recovery : Type 0 where
  pub world : World
  pub report : Report
  pub restored : ℕ
  pub failed : ℕ
  pub skipped : ℕ

abbrev pub begin : World → Recovery
begin w = record {
  world = w;
  report = record { buf = []; off = 0; overrun = false };
  restored = 0;
  failed = 0;
  skipped = 0;
}

abbrev pub or_empty : Option Text → Text
or_empty none = []
or_empty (some s) = s

abbrev pub count_failed : Recovery → Recovery
count_failed r = record r { failed = r.failed + 1 }

module _ (strerror : ℕ → Text) (env : Env) (cfg : DaemonConfig) (size : ℕ) where
  -- A sandbox that is mounted already is tracked again.
  unfoldable pub retrack : Text → Saved → Recovery → Recovery
  retrack name s r =
      let custom = or_empty s.custom_overlayroot in
      let meta : Meta = record {
        flags = s.flags;
        overlayroot = some (if is_empty custom then cfg.overlayroot else custom);
        baas_path = some (or_empty s.baas_path);
        prebuild_sb = some (or_empty s.prebuild_sb);
      } in
      record r {
        world = record r.world { table = (mountinfo_track name meta r.world.table).0 };
        report = say size (codes "  skip: " ++ name ++ codes " (already mounted)\n") r.report;
        skipped = r.skipped + 1;
      }

  -- The call of mount_sandbox for a record.
  abbrev pub remounted : Text → Text → Saved → Recovery → World × ℕ
  remounted name lower s r =
      mount_sandbox env cfg
        (record {
          sandboxname = name;
          uid = s.uid;
          gid = s.gid;
          flags = s.flags;
          lowerdir = lower;
          overlayroot = or_empty s.custom_overlayroot;
          baas_path = or_empty s.baas_path;
          prebuild_sb = or_empty s.prebuild_sb;
        })
        r.world

  unfoldable pub remount : Text → Text → Saved → Recovery → Recovery
  remount name lower s r =
      let (w, rc) = remounted name lower s r in
      if rc == 0
      then record r {
        world = w;
        report = say size (codes "  ok: " ++ name ++ codes "\n") r.report;
        restored = r.restored + 1;
      }
      else record r {
        world = w;
        report =
            say size (codes "  FAIL: " ++ name ++ codes ": " ++ strerror rc ++ codes "\n") r.report;
        failed = r.failed + 1;
      }

  abbrev pub restore_named : Option Text → Option Text → Saved → Recovery → Recovery
  restore_named none lower s r = count_failed r
  restore_named (some name) none s r = count_failed r
  restore_named (some name) (some lower) s r =
      if reported name r.world then retrack name s r else remount name lower s r

  unfoldable pub restore_one : Entry → Recovery → Recovery
  restore_one unparsed r = count_failed r
  restore_one (parsed s) r = restore_named s.sandboxname s.lowerdir s r

  unfoldable pub restore_all : List Entry → Recovery → Recovery
  restore_all [] r = r
  restore_all (e ∷ es) r = restore_all es (restore_one e r)

  abbrev pub summary : Recovery → Text
  summary r =
      codes "Recover complete: "
      ++ decimal r.restored
      ++ codes " restored, "
      ++ decimal r.failed
      ++ codes " failed, "
      ++ decimal r.skipped
      ++ codes " skipped\n"

  -- What restore_mounts leaves, and the size of the negative errno that it returns. The overlay root is
  -- `none` where it cannot be opened, with the errno.
  unfoldable pub restore_mounts : Text → ℕ → Option (List Entry) → World → Recovery × ℕ
  restore_mounts conf_path open_error entries w =
      let complain =
        λ (text : Text). record (begin w) { report = say size text (begin w).report } in
      let unconfigured =
        complain (codes "No overlayroot configured in " ++ conf_path ++ codes "\n") in
      let unopened = complain (
        codes "Failed to open overlayroot '"
        ++ cfg.overlayroot
        ++ codes "': "
        ++ strerror open_error
        ++ codes "\n") in
      if is_empty cfg.overlayroot then (unconfigured, einval) else elim entries [
        | none ↦ (unopened, open_error)
        | some es ↦
            let r = restore_all es (begin w) in
            (record r { report = say size (summary r) r.report }, if ltb 0 r.failed then eio else 0)
      ]
