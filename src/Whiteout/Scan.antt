-- ===== src/Whiteout/Scan.antt =====
-- mbroker/daemon/post_mount.c: the scan of the lower layers, its split into tasks, and
-- prepare_whiteout_dirs. Worker threads run the tasks in the order of their claims.
use aiomb.Prelude.{
  ℕ, zero, suc, ◌+◌, ◌-◌, List, [], ◌∷◌, ◌++◌, Bool, ◌||◌, ◌&&◌, not, Option, none, some, Text,
  is_empty, leb, if◌then◌else◌,
}
use aiomb.CString.{fit, tokens}
use aiomb.FileTree.{Node, file, dir, Entries, nil, entry, child_path, too_long, is_dot}
use aiomb.TaskQueue.{
  Queue, empty, task_queue_push, push_all, scan_queue_initial, create_queue_initial,
}
use aiomb.Whiteout.{whiteout_matches_any}

-- The path of an entry from its lower layer.
unfoldable pub child_rel : Text → Text → Text
child_rel rel name = fit 4096 (if is_empty rel then name else rel ++ b'/' ∷ name)

-- struct whiteout_match, for the upper directory of the request: a relative path
abbrev pub Results : Type 0
Results = Queue Text

-- struct whiteout_scan_task
pub record ScanTask : Type 0 where
  pub start_path : Text
  pub rel_path : Text
  pub node : Node

-- The queue, and the result of enqueue_whiteout_tasks: a count, or `none` for -ENOMEM.
abbrev pub Scanned : Type 0
Scanned = Queue ScanTask × Option ℕ

abbrev pub plus : ℕ → Scanned → Scanned
plus n (q, none) = (q, none)
plus n (q, some m) = (q, some (n + m))

abbrev pub and_then : Scanned → (Queue ScanTask → Scanned) → Scanned
and_then (q, none) rest = (q, none)
and_then (q, some n) rest = plus n (rest q)

abbrev pub or_itself : (Queue ScanTask → Scanned) → Scanned → Scanned
or_itself push (q, none) = (q, none)
or_itself push (q, some zero) = push q
or_itself push (q, some (suc n)) = (q, some (suc n))

module _ (fnmatch : Text → Text → Bool) (alloc : ℕ → Bool) where
  unfoldable mutual
    pub scan_whiteout_dirs : List Text → Text → Text → Node → Results → Results
    scan_whiteout_dirs pats path rel (file size) res = res
    scan_whiteout_dirs pats path rel (dir readable es) res =
        let added = (task_queue_push create_queue_initial alloc rel res).0 in
        let res' =
          if not (is_empty rel) && whiteout_matches_any fnmatch pats rel then added else res in
        let below = scan_entries pats path rel es res' in if readable then below else res'

    pub scan_entries : List Text → Text → Text → Entries → Results → Results
    scan_entries pats path rel nil res = res
    scan_entries pats path rel (entry name n es) res =
        let here = scan_whiteout_dirs pats (child_path path name) (child_rel rel name) n res in
        let skip = scan_entries pats path rel es res in
        let rest = scan_entries pats path rel es here in
        if is_dot name || too_long (child_path path name) then skip else rest

  -- whiteout_scan_queue_push returns 0 when it pushed.
  unfoldable pub whiteout_scan_queue_push : ScanTask → Queue ScanTask → Scanned
  whiteout_scan_queue_push t q =
      let (q', done) = task_queue_push scan_queue_initial alloc t q in
      (q', if done then some 0 else none)

  -- `levels` is WHITEOUT_SCAN_SPLIT_DEPTH - depth
  unfoldable mutual
    pub enqueue_whiteout_tasks : ℕ → Text → Text → Node → Queue ScanTask → Scanned
    enqueue_whiteout_tasks levels path rel (file size) q = (q, some 0)
    enqueue_whiteout_tasks levels path rel (dir readable es) q =
        let itself : ScanTask = record {
          start_path = path;
          rel_path = rel;
          node = dir readable es;
        } in
        let below =
          or_itself (whiteout_scan_queue_push itself)
            (enqueue_entries (levels - 1) path rel es q) in
        if leb levels 0 || not readable then whiteout_scan_queue_push itself q else below

    pub enqueue_entries : ℕ → Text → Text → Entries → Queue ScanTask → Scanned
    enqueue_entries levels path rel nil q = (q, some 0)
    enqueue_entries levels path rel (entry name n es) q =
        let here = enqueue_whiteout_tasks levels (child_path path name) (child_rel rel name) n q in
        let skip = enqueue_entries levels path rel es q in
        let rest = λ (q' : Queue ScanTask). enqueue_entries levels path rel es q' in
        if is_dot name || too_long (child_path path name) then skip else and_then here rest

  -- The loop of the scan workers.
  unfoldable pub scan_all : List Text → List ScanTask → Results → Results
  scan_all pats [] res = res
  scan_all pats (t ∷ ts) res =
      scan_all pats ts (scan_whiteout_dirs pats t.start_path t.rel_path t.node res)

  -- The loop over the lower layers: those that are directories are split.
  unfoldable pub enqueue_layers : (Text → Option Node) → List Text → Queue ScanTask → Scanned
  enqueue_layers lstat [] q = (q, some 0)
  enqueue_layers lstat (token ∷ more) q =
      let skip = enqueue_layers lstat more q in
      let rest = λ (q' : Queue ScanTask). enqueue_layers lstat more q' in
      elim (lstat token) [
        | none ↦ skip
        | some n ↦ and_then (enqueue_whiteout_tasks 2 token [] n q) rest
      ]

-- The targets that ensure_whiteout_dir asks mkdir_p for: it gives up on one that does not fit. What
-- mkdir_p and setxattr answer, and that mkdir_p takes the first 511 bytes of a path only, is left out.
unfoldable pub whiteout_targets : Text → List Text → List Text
whiteout_targets upperdir [] = []
whiteout_targets upperdir (rel ∷ rels) =
    let rest = whiteout_targets upperdir rels in
    if too_long (child_path upperdir rel) then rest else child_path upperdir rel ∷ rest

-- prepare_whiteout_dirs: the size of the negative errno that it returns (ENOMEM is 12, EIO is 5), and the
-- targets that ensure_whiteout_dir is run on. `threads` says for each of its two phases whether the
-- array of threads was found, and whether any thread started.
pub record Threads : Type 0 where
  pub allocated : Bool
  pub started : Bool

unfoldable pub create_phase : (ℕ → Bool) → Threads → Text → Results → ℕ × List Text
create_phase alloc threads upperdir res =
    elim (push_all create_queue_initial alloc res.tasks empty) [
      | none ↦ (12, [])
      | some q ↦
          if not threads.allocated
          then (12, [])
          else if not threads.started
          then (5, [])
          else (0, whiteout_targets upperdir q.tasks)
    ]

unfoldable pub scan_phase :
    (Text → Text → Bool)
    → (ℕ → Bool)
    → Threads
    → Threads
    → Text
    → List Text
    → Scanned
    → ℕ × List Text
scan_phase fnmatch alloc scan_threads create_threads upperdir pats (q, none) = (12, [])
scan_phase fnmatch alloc scan_threads create_threads upperdir pats (q, some n) =
    let res = scan_all fnmatch alloc pats q.tasks empty in
    let created = create_phase alloc create_threads upperdir res in
    if is_empty q.tasks
    then (0, [])
    else if not scan_threads.allocated
    then (12, [])
    else if not scan_threads.started
    then (5, [])
    else if is_empty res.tasks
    then (0, [])
    else created

unfoldable pub prepare_whiteout_dirs :
    (Text → Text → Bool)
    → (ℕ → Bool)
    → Threads
    → Threads
    → (Text → Option Node)
    → Text
    → Text
    → List Text
    → ℕ × List Text
prepare_whiteout_dirs fnmatch alloc scan_threads create_threads lstat lowerdir upperdir pats =
    let scanned = enqueue_layers fnmatch alloc lstat (tokens b':' (fit 8192 lowerdir)) empty in
    if is_empty pats
    then (0, [])
    else scan_phase fnmatch alloc scan_threads create_threads upperdir pats scanned
