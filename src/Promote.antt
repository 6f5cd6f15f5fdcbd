-- ===== src/Promote.antt =====
-- mbroker/daemon/promote.c: the walk that marks files and directories for copy-up, and the split of a
-- mount point into tasks. A task is a path with the tree that it names.
mod Coverage
mod Workers
mod Examples
use aiomb.Prelude.{
  ℕ, zero, suc, ◌+◌, ◌-◌, ◌*◌, List, [], ◌∷◌, ◌++◌, Bool, true, false, ◌||◌, not, Option, none,
  some, Text, leb, ltb, if◌then◌else◌,
}
use aiomb.FileTree.{Node, file, dir, Entries, nil, entry, child_path, too_long, is_skipped}
use aiomb.TaskQueue.{Queue, empty, task_queue_push, task_queue_initial}

-- The attribute that a call of `lsetxattr` sets; its failures are only logged.
pub data Mark : Type 0 where
  promote_file promote_dir : Mark

abbrev pub Marks : Type 0
Marks = List (Mark × Text)

-- PROMOTE_MAX_FILE_SIZE
abbrev pub promote_max_file_size : ℕ
promote_max_file_size = 100 * 1024 * 1024

unfoldable mutual
  -- promote_tree_opendir: the attributes that are set, in order
  pub promote_tree_opendir : Text → Node → Marks
  promote_tree_opendir path (file size) =
      if ltb promote_max_file_size size then [] else (promote_file, path) ∷ []
  promote_tree_opendir path (dir readable es) =
      let below = promote_entries path es in if readable then (promote_dir, path) ∷ below else []

  pub promote_entries : Text → Entries → Marks
  promote_entries path nil = []
  promote_entries path (entry name n es) =
      let here = promote_tree_opendir (child_path path name) n in
      let rest = promote_entries path es in
      if is_skipped name || too_long (child_path path name) then rest else here ++ rest

-- struct task_entry
pub record Task : Type 0 where
  pub path : Text
  pub node : Node

-- The queue and the result of enqueue_promote_tasks: the number of tasks, or `none` for -1.
abbrev pub Enqueued : Type 0
Enqueued = Queue Task × Option ℕ

unfoldable pub push_one : (ℕ → Bool) → Task → Queue Task → Enqueued
push_one alloc t q =
    let (q', done) = task_queue_push task_queue_initial alloc t q in
    (q', if done then some 1 else none)

abbrev pub plus : ℕ → Enqueued → Enqueued
plus n (q, none) = (q, none)
plus n (q, some m) = (q, some (n + m))

abbrev pub and_then : Enqueued → (Queue Task → Enqueued) → Enqueued
and_then (q, none) rest = (q, none)
and_then (q, some n) rest = plus n (rest q)

-- A directory with nothing below it that was enqueued becomes a task of its own.
abbrev pub or_itself : (Queue Task → Enqueued) → Enqueued → Enqueued
or_itself push (q, none) = (q, none)
or_itself push (q, some zero) = push q
or_itself push (q, some (suc n)) = (q, some (suc n))

unfoldable mutual
  -- enqueue_promote_tasks, with `levels` = max_depth - depth
  pub enqueue_promote_tasks : (ℕ → Bool) → ℕ → Text → Node → Queue Task → Enqueued
  enqueue_promote_tasks alloc levels path (file size) q =
      push_one alloc (record { path = path; node = file size }) q
  enqueue_promote_tasks alloc levels path (dir readable es) q =
      let push = push_one alloc (record { path = path; node = dir readable es }) in
      let below = or_itself push (enqueue_entries alloc (levels - 1) path es q) in
      if leb levels 0 || not readable then push q else below

  pub enqueue_entries : (ℕ → Bool) → ℕ → Text → Entries → Queue Task → Enqueued
  enqueue_entries alloc levels path nil q = (q, some 0)
  enqueue_entries alloc levels path (entry name n es) q =
      let here = enqueue_promote_tasks alloc levels (child_path path name) n q in
      let skip = enqueue_entries alloc levels path es q in
      let rest = λ (q' : Queue Task). enqueue_entries alloc levels path es q' in
      if is_skipped name || too_long (child_path path name) then skip else and_then here rest

-- The tasks in the order of their claims, by one worker.
unfoldable pub run_tasks : List Task → Marks
run_tasks [] = []
run_tasks (t ∷ ts) = promote_tree_opendir t.path t.node ++ run_tasks ts

-- The levels below a child of the mount point: TASK_ENQUEUE_LEVELS - 1
abbrev pub child_levels : ℕ
child_levels = 5

-- promote_mountpoint_thread: the entries of the mount point are enqueued, up to the first failure, and
-- what was enqueued is run.
unfoldable pub promote_mountpoint_thread : (ℕ → Bool) → Text → Node → Marks
promote_mountpoint_thread alloc mountpoint (file size) = []
promote_mountpoint_thread alloc mountpoint (dir readable es) =
    let (q, result) = enqueue_entries alloc child_levels mountpoint es empty in
    if readable then run_tasks q.tasks else []
