-- ===== src/DaemonConfig/Bounds.antt =====
-- What every configuration that daemon_config.c loads satisfies.
use aiomb.Prelude.{
  ℕ, zero, suc, ◌≤◌, ◌<◌, ◌≡◌, List, [], ◌∷◌, Bool, true, false, Option, none, some, Text, ◌||◌,
  is_empty, length, All, arith, inl, inr, Bool-cases, Option-cases, ◌==◌,
}
use aiomb.CString.{fit, strip, tokens, fgets_all, first, has_dotdot}
use aiomb.CString.Laws.{length-fit, has_dotdot-fit, fit_head}
use aiomb.DaemonConfig.{
  DaemonConfig, zeroed, is_valid_relative_dir, keep_items, is_host, assign, read_line, read_lines,
  with_defaults, config_load, parse_post_mount_chown_dirs, parse_post_mount_whiteout_dirs,
  parse_nfs_servers, default_socket, split_eq, until_newline,
}

-- A path below the sandbox: not empty, not absolute, with no `..` in it, and within its field.
abbrev pub IsRelative : Text → Type 0
IsRelative d =
    (is_empty d ≡ false) × ((first d == b'/') ≡ false) × (has_dotdot d ≡ false) × (length d < 512)

abbrev pub IsHost : Text → Type 0
IsHost h = (is_empty h ≡ false) × (length h < 256)

pub record IsValid (cfg : DaemonConfig) : Type 0 where
  pub root : length cfg.overlayroot < 2048
  pub socket : length cfg.model_socket < 256
  pub chown_count : length cfg.post_mount_chown_dirs ≤ 32
  pub chown_dirs : All IsRelative cfg.post_mount_chown_dirs
  pub whiteout_count : length cfg.post_mount_whiteout_dirs ≤ 64
  pub whiteout_dirs : All IsRelative cfg.post_mount_whiteout_dirs
  pub server_count : length cfg.nfs_servers ≤ 16
  pub servers : All IsHost cfg.nfs_servers

length-keep_items :
    (valid : Text → Bool) (size room : ℕ) (ts : List Text)
    → length (keep_items valid size room ts) ≤ room
unfolding keep_items
length-keep_items valid size room [] = omega arith
length-keep_items valid size zero (t ∷ ts) = omega arith
length-keep_items valid size (suc room) (t ∷ ts) =
    ground (arith, length-keep_items valid size room ts, length-keep_items valid size (suc room) ts)

keep_items-All {ℓ} :
    (P : Text → Type ℓ) (valid : Text → Bool) (size room : ℕ) (ts : List Text)
    → ((item : Text) → valid item ≡ true → P (fit size item))
    → All P (keep_items valid size room ts)
unfolding keep_items
keep_items-All P valid size room [] h = tt
keep_items-All P valid size zero (t ∷ ts) h = tt
keep_items-All P valid size (suc room) (t ∷ ts) h = elim (Bool-cases (valid (strip t))) [
  | inl e ↦ rw (e, keep_items) (h (strip t) e, keep_items-All P valid size room ts h)
  | inr e ↦ rw (e, keep_items) (keep_items-All P valid size (suc room) ts h)
]

-- Cutting an entry to its field keeps it relative.
fit-IsRelative : (item : Text) → is_valid_relative_dir item ≡ true → IsRelative (fit 512 item)
unfolding is_valid_relative_dir
fit-IsRelative item h = ground (
  arith,
  (fit_head 510 item).0,
  (fit_head 510 item).1,
  has_dotdot-fit 512 item,
  length-fit 512 item (omega arith),
)

fit-IsHost : (item : Text) → is_host item ≡ true → IsHost (fit 256 item)
fit-IsHost item h = (ground (arith, (fit_head 254 item).0), length-fit 256 item (omega arith))

abbrev Within {ℓ} : (Text → Type ℓ) → ℕ → List Text → Type ℓ
Within P n ts = (length ts ≤ n) × All P ts

chown-Within : (val : Text) → Within IsRelative 32 (parse_post_mount_chown_dirs val)
unfolding parse_post_mount_chown_dirs
chown-Within val = (
  length-keep_items is_valid_relative_dir 512 32 (tokens b',' (fit 4096 val)),
  keep_items-All IsRelative is_valid_relative_dir 512 32 (tokens b',' (fit 4096 val))
      fit-IsRelative,
)

whiteout-Within : (val : Text) → Within IsRelative 64 (parse_post_mount_whiteout_dirs val)
unfolding parse_post_mount_whiteout_dirs
whiteout-Within val = (
  length-keep_items is_valid_relative_dir 512 64 (tokens b',' (fit 4096 val)),
  keep_items-All IsRelative is_valid_relative_dir 512 64 (tokens b',' (fit 4096 val))
      fit-IsRelative,
)

servers-Within : (val : Text) → Within IsHost 16 (parse_nfs_servers val)
unfolding parse_nfs_servers
servers-Within val = (
  length-keep_items is_host 256 16 (tokens b',' (fit 4096 val)),
  keep_items-All IsHost is_host 256 16 (tokens b',' (fit 4096 val)) fit-IsHost,
)

zeroed-IsValid : IsValid zeroed
zeroed-IsValid = omega arith

with_defaults-IsValid : (cfg : DaemonConfig) → IsValid cfg → IsValid (with_defaults cfg)
with_defaults-IsValid cfg v = ground (arith, length-fit 256 default_socket (omega arith))

-- What one assignment does to the bounds.
assign-IsValid : (key val : Text) (cfg : DaemonConfig) → IsValid cfg → IsValid (assign key val cfg)
unfolding assign
assign-IsValid key val cfg v = ground (
  arith,
  length-fit 2048 val,
  length-fit 256 val,
  chown-Within val,
  whiteout-Within val,
  servers-Within val,
)

read_line-IsValid : (line : Text) (cfg : DaemonConfig) → IsValid cfg → IsValid (read_line line cfg)
unfolding read_line
read_line-IsValid line cfg v =
    let s = strip (until_newline line) in
    elim (Bool-cases (is_empty s || first s == b'#')) [
      | inl skip ↦ rw (skip, read_line) v
      | inr e ↦ elim (Option-cases (split_eq s)) [
        | inl n ↦ rw (e, read_line) (rw n v)
        | inr ((k, w), n) ↦ rw (e, read_line) (rw n (assign-IsValid (strip k) (strip w) cfg v))
      ]
    ]

read_lines-IsValid :
    (ls : List Text) (cfg : DaemonConfig) → IsValid cfg → IsValid (read_lines ls cfg)
unfolding read_lines
read_lines-IsValid [] cfg v = v
read_lines-IsValid (l ∷ ls) cfg v =
    read_lines-IsValid ls (read_line l cfg) (read_line-IsValid l cfg v)

-- Whatever the file holds, or where there is none, every list of the loaded record is within its
-- array, each directory is relative with no `..`, each server is named, and each string fits its field.
pub config_load-IsValid : (file : Option Text) → IsValid (config_load file).0
unfolding config_load
config_load-IsValid none = zeroed-IsValid
config_load-IsValid (some content) =
    with_defaults-IsValid _ (read_lines-IsValid (fgets_all 4096 content) zeroed zeroed-IsValid)
