-- ===== src/Whiteout/Examples.antt =====
-- Runs of the whiteout code of mbroker/daemon/post_mount.c, with names compared letter by letter.
use aiomb.Prelude.{
  ℕ, List, [], ◌∷◌, Bool, true, Option, some, Text, codes, text_eq, select, ◌≡◌, refl, ◌↔◌,
}
use aiomb.CString.{fit, tokens, split}
use aiomb.FileTree.{Node, dir, nil, entry, is_dot}
use aiomb.TaskQueue.{task_queue_push, push_all}
use aiomb.Whiteout.{
  pattern_matches_segments, stars, any_tail, whiteout_matches_any, whiteout_pattern_matches,
  split_segments,
}
use aiomb.Whiteout.Pattern.{Matches, pattern_matches_segments_iff}
use aiomb.Whiteout.Scan.{
  enqueue_whiteout_tasks, whiteout_scan_queue_push, prepare_whiteout_dirs, whiteout_targets,
  scan_phase, enqueue_layers, scan_all, scan_whiteout_dirs, child_rel, create_phase,
}
use aiomb.Whiteout.Refinement.{ready}

abbrev always : ℕ → Bool
always n = true

-- "a/b/out" and "a/c"
abbrev lower : Node
lower = dir true (
    entry (codes "a")
      (dir true (
        entry (codes "b") (dir true (entry (codes "out") (dir true nil) nil))
          (entry (codes "c") (dir true nil) nil)))
      nil)

abbrev lstat : Text → Option Node
lstat p = some lower

abbrev pats : List Text
pats = codes "**/out" ∷ []

pattern_matches_segments_iff_example :
    (pattern_matches_segments text_eq
        (stars ∷ codes "out" ∷ [])
        (codes "a" ∷ codes "b" ∷ codes "out" ∷ [])
      ≡ true)
    ↔ Matches text_eq (stars ∷ codes "out" ∷ []) (codes "a" ∷ codes "b" ∷ codes "out" ∷ [])
pattern_matches_segments_iff_example =
    pattern_matches_segments_iff text_eq (stars ∷ codes "out" ∷ [])
      (codes "a" ∷ codes "b" ∷ codes "out" ∷ [])

matches_out :
    pattern_matches_segments text_eq
      (stars ∷ codes "out" ∷ [])
      (codes "a" ∷ codes "b" ∷ codes "out" ∷ [])
    ≡ true
unfolding pattern_matches_segments text_eq any_tail
matches_out = refl

-- One directory is found by its own task's scan and by the scans of the two that hold it.
found_three_times :
    prepare_whiteout_dirs text_eq always ready ready lstat (codes "/l") (codes "/u") pats
    ≡ (0, codes "/u/a/b/out" ∷ codes "/u/a/b/out" ∷ codes "/u/a/b/out" ∷ [])
unfolding prepare_whiteout_dirs scan_phase enqueue_layers tokens fit enqueue_whiteout_tasks is_dot
    text_eq whiteout_scan_queue_push task_queue_push scan_all scan_whiteout_dirs child_rel
    whiteout_matches_any whiteout_pattern_matches pattern_matches_segments split_segments any_tail
    split select push_all create_phase whiteout_targets
found_three_times = refl
