-- ===== src/Recover/Examples.antt =====
-- Runs of restore_mounts of mbroker/daemon/mount_ops.c.
use aiomb.Prelude.{ℕ, [], ◌∷◌, List, true, none, some, Text, codes, ◌≡◌, refl}
use aiomb.DaemonConfig.{DaemonConfig, zeroed}
use aiomb.Mount.Examples.{start}
use aiomb.Recover.{Entry, unparsed, parsed, begin, say}

abbrev cfg : DaemonConfig
cfg = record zeroed { overlayroot = codes "/ov" }

abbrev strerror : ℕ → Text
strerror n = codes "error"

-- A record that cannot be parsed, and one without a lower directory.
abbrev entries : List Entry
entries =
    unparsed
    ∷ parsed (record {
      sandboxname = some (codes "/home/u/sb");
      lowerdir = none;
      custom_overlayroot = none;
      baas_path = none;
      prebuild_sb = none;
      flags = 0;
      uid = 1000;
      gid = 1000;
    })
    ∷ []

-- Two lines into a buffer of four bytes: the second is written behind it.
second_line_overruns :
    (say 4 (codes "bc") (say 4 (codes "longer") (begin start).report)).overrun ≡ true
unfolding say
second_line_overruns = refl
