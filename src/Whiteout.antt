-- ===== src/Whiteout.antt =====
-- mbroker/daemon/post_mount.c, whiteouts: which directories of the lower layers match the configured
-- patterns, and the opaque directories that are made for them. `fnmatch` is a parameter.
mod Pattern
pub mod Scan
mod Coverage
mod Members
mod Prepare
mod Refinement
mod Examples
use aiomb.Prelude.{
  ℕ, zero, suc, ◌+◌, List, [], ◌∷◌, ◌++◌, map, Bool, true, false, ◌||◌, ◌&&◌, not, Option, none,
  some, Text, codes, take, is_empty, leb, length, text_eq, if◌then◌else◌,
}
use aiomb.CString.{fit, tokens}
use aiomb.FileTree.{Node, file, dir, Entries, nil, entry, child_path, too_long, is_dot}
use aiomb.TaskQueue.{
  Queue, empty, task_queue_push, push_all, scan_queue_initial, create_queue_initial,
}

-- split_segments with 128 places of 256 bytes
unfoldable pub split_segments : Text → List Text
split_segments value = take 128 (map (fit 256) (tokens b'/' (fit 4096 value)))

-- A test that holds of some tail of the list, the empty one included.
unfoldable pub any_tail : (List Text → Bool) → List Text → Bool
any_tail f [] = f []
any_tail f (s ∷ ss) = let rest = any_tail f ss in f (s ∷ ss) || rest

abbrev pub stars : Text
stars = codes "**"

module _ (fnmatch : Text → Text → Bool) where
  unfoldable pub pattern_matches_segments : List Text → List Text → Bool
  pattern_matches_segments [] segs = is_empty segs
  pattern_matches_segments (p ∷ ps) [] =
      let skips = any_tail (λ tail. pattern_matches_segments ps tail) [] in
      if text_eq p stars then is_empty ps || skips else false
  pattern_matches_segments (p ∷ ps) (s ∷ ss) =
      let skips = any_tail (λ tail. pattern_matches_segments ps tail) (s ∷ ss) in
      let rest = pattern_matches_segments ps ss in
      if text_eq p stars then is_empty ps || skips else fnmatch p s && rest

  unfoldable pub whiteout_pattern_matches : Text → Text → Bool
  whiteout_pattern_matches pattern rel =
      pattern_matches_segments (split_segments pattern) (split_segments rel)

  unfoldable pub whiteout_matches_any : List Text → Text → Bool
  whiteout_matches_any [] rel = false
  whiteout_matches_any (p ∷ ps) rel =
      let rest = whiteout_matches_any ps rel in whiteout_pattern_matches p rel || rest
