-- ===== src/DaemonConfig.antt =====
-- mbroker/daemon/daemon_config.c: the parser of mrepod.conf. The counts of the C record are the lengths
-- of its lists. `atoi` is read over unbounded numbers.
pub mod Bounds
mod Examples
use aiomb.Prelude.{
  ℤ, pos, neg, ℕ, zero, suc, ◌+◌, ◌-◌, ◌*◌, List, [], ◌∷◌, Bool, true, false, not, ◌&&◌, ◌||◌,
  Option, none, some, Text, codes, is_empty, leb, ◌==◌, text_eq, if◌then◌else◌,
}
use aiomb.CString.{fit, isspace, trim_left, strip, tokens, fgets_all, first, has_dotdot}

digits : ℕ → Text → ℕ
digits n [] = n
digits n (c ∷ s) =
    let rest = digits (n * 10 + (c - 48)) s in if leb 48 c && leb c 57 then rest else n

signed : Text → ℤ
unfolding digits
signed [] = pos 0
signed (c ∷ s) =
    if c == b'-'
    then neg (digits 0 s)
    else if c == b'+'
    then pos (digits 0 s)
    else pos (digits 0 (c ∷ s))

pub atoi : Text → ℤ
unfolding signed trim_left
atoi s = signed (trim_left s)

-- struct daemon_config
pub record DaemonConfig : Type 0 where
  pub overlayroot : Text
  pub post_mount_chown_dirs : List Text
  pub post_mount_whiteout_dirs : List Text
  pub ml_enabled : ℤ
  pub model_socket : Text
  pub nfs_servers : List Text

abbrev pub zeroed : DaemonConfig
zeroed = record {
  overlayroot = [];
  post_mount_chown_dirs = [];
  post_mount_whiteout_dirs = [];
  ml_enabled = pos 0;
  model_socket = [];
  nfs_servers = [];
}

-- is_valid_relative_dir, and is_valid_relative_pattern, which is the same
unfoldable pub is_valid_relative_dir : Text → Bool
unfolding has_dotdot
is_valid_relative_dir path =
    not (is_empty path) && not (first path == b'/') && not (has_dotdot path)

-- The loop of the three lists over the tokens that are left, with room for `room` more entries of
-- `size` bytes.
pub keep_items : (Text → Bool) → ℕ → ℕ → List Text → List Text
unfolding fit strip
keep_items valid size room [] = []
keep_items valid size zero (t ∷ ts) = []
keep_items valid size (suc room) (t ∷ ts) =
    let item = strip t in
    elim (valid item) [
      | true ↦ fit size item ∷ keep_items valid size room ts
      | false ↦ keep_items valid size (suc room) ts
    ]

unfoldable pub parse_post_mount_chown_dirs : Text → List Text
unfolding keep_items is_valid_relative_dir tokens fit
parse_post_mount_chown_dirs val =
    keep_items is_valid_relative_dir 512 32 (tokens b',' (fit 4096 val))

unfoldable pub parse_post_mount_whiteout_dirs : Text → List Text
unfolding keep_items is_valid_relative_dir tokens fit
parse_post_mount_whiteout_dirs val =
    keep_items is_valid_relative_dir 512 64 (tokens b',' (fit 4096 val))

abbrev pub is_host : Text → Bool
is_host item = not (is_empty item)

-- The `nfs_servers` branch of config_load.
unfoldable pub parse_nfs_servers : Text → List Text
unfolding keep_items tokens fit
parse_nfs_servers val = keep_items is_host 256 16 (tokens b',' (fit 4096 val))

-- line[strcspn(line, "\n\r")] = '\0'
pub until_newline : Text → Text
until_newline [] = []
until_newline (c ∷ s) = let rest = until_newline s in if c == 10 || c == 13 then [] else c ∷ rest

-- The text before and behind the first '='.
pub split_eq : Text → Option (Text × Text)
split_eq [] = none
split_eq (c ∷ s) =
    let rest : Option (Text × Text) = elim (split_eq s) [
      | none ↦ none
      | some (k, v) ↦ some (c ∷ k, v)
    ] in
    if c == b'=' then some ([], s) else rest

-- The chain of `strcmp` tests; other keys are passed over.
pub assign : Text → Text → DaemonConfig → DaemonConfig
assign key val cfg =
    if text_eq key (codes "overlayroot")
    then record cfg { overlayroot = fit 2048 val }
    else if text_eq key (codes "post_mount_chown_dirs")
    then record cfg { post_mount_chown_dirs = parse_post_mount_chown_dirs val }
    else if text_eq key (codes "post_mount_whiteout_dirs")
    then record cfg { post_mount_whiteout_dirs = parse_post_mount_whiteout_dirs val }
    else if text_eq key (codes "ml_enabled")
    then record cfg { ml_enabled = atoi val }
    else if text_eq key (codes "model_socket")
    then record cfg { model_socket = fit 256 val }
    else if text_eq key (codes "nfs_servers")
    then record cfg { nfs_servers = parse_nfs_servers val }
    else cfg

-- One pass of the loop of config_load.
pub read_line : Text → DaemonConfig → DaemonConfig
unfolding until_newline split_eq strip
read_line line cfg =
    let s = strip (until_newline line) in
    if is_empty s || first s == b'#'
    then cfg
    else elim (split_eq s) [ none ↦ cfg | some (k, v) ↦ assign (strip k) (strip v) cfg ]

pub read_lines : List Text → DaemonConfig → DaemonConfig
unfolding read_line
read_lines [] cfg = cfg
read_lines (l ∷ ls) cfg = read_lines ls (read_line l cfg)

abbrev pub default_socket : Text
default_socket = codes "/run/mrepod/model.sock"

abbrev pub with_defaults : DaemonConfig → DaemonConfig
with_defaults cfg = record cfg {
  model_socket = if is_empty cfg.model_socket then fit 256 default_socket else cfg.model_socket;
}

-- config_load on the bytes of the file: the record, and whether the call returned 0. Where the file
-- cannot be opened the record is zeroed, the socket's default included.
unfoldable pub config_load : Option Text → DaemonConfig × Bool
unfolding read_lines fgets_all fit
config_load none = (zeroed, false)
config_load (some content) = (with_defaults (read_lines (fgets_all 4096 content) zeroed), true)
