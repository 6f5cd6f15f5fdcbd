-- ===== src/Whiteout/Refinement.antt =====
-- prepare_whiteout_dirs of mbroker/daemon/post_mount.c against the matches of the lower layers.
use aiomb.Prelude.{List, [], ◌∷◌, ◌++◌, Bool, true, Option, none, some, Text}
use aiomb.FileTree.{Node}
use aiomb.Whiteout.Scan.{ScanTask, Threads}
use aiomb.Whiteout.Coverage.{tasks_of}
use aiomb.Whiteout.Members.{matches_of}

module _ (lstat : Text → Option Node) where
  -- The tasks of the lower layers.
  unfoldable layer_tasks : List Text → List ScanTask
  layer_tasks [] = []
  layer_tasks (l ∷ ls) =
      let rest = layer_tasks ls in
      elim (lstat l) [ none ↦ rest | some n ↦ tasks_of 2 l [] n ++ rest ]

  -- The matches of the lower layers, each scanned once.
  unfoldable pub layer_matches : (Text → Text → Bool) → List Text → List Text → List Text
  layer_matches fnmatch pats [] = []
  layer_matches fnmatch pats (l ∷ ls) =
      let rest = layer_matches fnmatch pats ls in
      elim (lstat l) [ none ↦ rest | some n ↦ matches_of fnmatch pats l [] n ++ rest ]

abbrev pub ready : Threads
ready = record { allocated = true; started = true }
