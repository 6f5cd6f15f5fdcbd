-- ===== src/Ownership.antt =====
-- mbroker/daemon/ownership.c: the walk that gives a mount point's files to its owner, and the split of it
-- into tasks. `errors` says for each path which errno a change of owner gives, or 0.
mod Walk
pub mod Whole
mod Shallow
pub mod Examples
use aiomb.Prelude.{
  ℕ, zero, suc, ◌+◌, ◌-◌, List, [], ◌∷◌, ◌++◌, Bool, true, false, ◌||◌, ◌&&◌, not, Option, none,
  some, Text, ◌==◌, leb, if◌then◌else◌,
}
use aiomb.FileTree.{Node, file, dir, Entries, nil, entry, child_path, too_long, is_dot}
use aiomb.TaskQueue.{Queue, empty, task_queue_push, task_queue_initial}

-- is_expected_chown_race_errno: ENOENT, ENOTDIR, ESTALE
abbrev pub is_expected_chown_race_errno : ℕ → Bool
is_expected_chown_race_errno err = err == 2 || err == 20 || err == 116

-- EPERM, EROFS, ENOTSUP
abbrev pub is_tolerated : ℕ → Bool
is_tolerated err = err == 1 || err == 30 || err == 95

-- struct chown_cycle_stats, with the paths that have been given to the owner
pub record Cycle : Type 0 where
  pub files_seen : ℕ
  pub dirs_seen : ℕ
  pub changed : ℕ
  pub errors : ℕ
  pub race_skips : ℕ
  pub owned : List Text

abbrev pub no_cycle : Cycle
no_cycle = record {
  files_seen = 0;
  dirs_seen = 0;
  changed = 0;
  errors = 0;
  race_skips = 0;
  owned = [];
}

-- One `fchownat` with its counts.
unfoldable pub chown_one : ℕ → Text → Cycle → Cycle
chown_one err path c =
    if err == 0
    then record c { changed = c.changed + 1; owned = c.owned ++ path ∷ [] }
    else if is_expected_chown_race_errno err
    then record c { race_skips = c.race_skips + 1 }
    else if is_tolerated err
    then c
    else record c { errors = c.errors + 1 }

abbrev pub saw_dir : Cycle → Cycle
saw_dir c = record c { dirs_seen = c.dirs_seen + 1 }

abbrev pub saw_file : Cycle → Cycle
saw_file c = record c { files_seen = c.files_seen + 1 }

abbrev pub is_dir : Node → Bool
is_dir (file size) = false
is_dir (dir readable es) = true

module _ (errors : Text → ℕ) where
  -- A file cannot be opened as a directory, so ENOTDIR is counted as a race. An unreadable directory
  -- fails with EACCES.
  unfoldable mutual
    pub chown_tree_fchownat : Text → Node → Cycle → Cycle
    chown_tree_fchownat path (file size) c = record c { race_skips = c.race_skips + 1 }
    chown_tree_fchownat path (dir readable es) c =
        let own = saw_dir (chown_one (errors path) path c) in
        let below = chown_entries path es own in
        if readable then below else record c { errors = c.errors + 1 }

    pub chown_entries : Text → Entries → Cycle → Cycle
    chown_entries path nil c = c
    chown_entries path (entry name n es) c =
        let child = child_path path name in
        let own = chown_one (errors child) child c in
        let below = chown_tree_fchownat child n own in
        let seen = if is_dir n then (if too_long child then own else below) else saw_file own in
        let skip = chown_entries path es c in
        let missed = chown_entries path es own in
        let rest = chown_entries path es seen in
        if is_dot name then skip else if errors child == 0 then rest else missed

-- struct task_entry
pub record ChownTask : Type 0 where
  pub path : Text
  pub node : Node

-- The queue, the directories that were given to the owner on the way, and the result of
-- enqueue_chown_tasks_up_to_depth: the number of tasks, or `none` for -1.
pub record Enqueued : Type 0 where
  pub queue : Queue ChownTask
  pub lchowned : List Text
  pub result : Option ℕ

unfoldable pub push_one : (ℕ → Bool) → ChownTask → Queue ChownTask → List Text → Enqueued
push_one alloc t q ds =
    let (q', done) = task_queue_push task_queue_initial alloc t q in
    record { queue = q'; lchowned = ds; result = if done then some 1 else none }

abbrev pub plus : Option ℕ → Option ℕ → Option ℕ
plus none b = none
plus (some m) none = none
plus (some m) (some n) = some (m + n)

unfoldable pub and_then : Enqueued → (Queue ChownTask → List Text → Enqueued) → Enqueued
and_then e rest =
    let r = rest e.queue e.lchowned in
    elim e.result [ none ↦ e | some n ↦ record r { result = plus (some n) r.result } ]

unfoldable pub or_itself : (Queue ChownTask → List Text → Enqueued) → Enqueued → Enqueued
or_itself push e = elim e.result [
  | none ↦ e
  | some zero ↦ push e.queue e.lchowned
  | some (suc n) ↦ e
]

-- With `levels` = max_depth - depth. `foreign` says of a path whether someone else owns it and lchown gives it away.
module _ (alloc : ℕ → Bool) (foreign : Text → Bool) where
  unfoldable mutual
    pub enqueue_chown_tasks_up_to_depth : ℕ → Text → Node → Queue ChownTask → List Text → Enqueued
    enqueue_chown_tasks_up_to_depth levels path (file size) q ds =
        push_one alloc (record { path = path; node = file size }) q ds
    enqueue_chown_tasks_up_to_depth levels path (dir readable es) q ds =
        let ds' = if foreign path then ds ++ path ∷ [] else ds in
        let push = push_one alloc (record { path = path; node = dir readable es }) in
        let below = or_itself push (enqueue_entries (levels - 1) path es q ds') in
        if leb levels 0 || not readable then push q ds' else below

    pub enqueue_entries : ℕ → Text → Entries → Queue ChownTask → List Text → Enqueued
    enqueue_entries levels path nil q ds = record { queue = q; lchowned = ds; result = some 0 }
    enqueue_entries levels path (entry name n es) q ds =
        let here = enqueue_chown_tasks_up_to_depth levels (child_path path name) n q ds in
        let skip = enqueue_entries levels path es q ds in
        let rest =
          λ (q' : Queue ChownTask) (ds' : List Text). enqueue_entries levels path es q' ds' in
        if is_dot name || too_long (child_path path name) then skip else and_then here rest

-- The workers' loop, in the order of the claims.
unfoldable pub run_tasks : (Text → ℕ) → List ChownTask → Cycle → Cycle
run_tasks errors [] c = c
run_tasks errors (t ∷ ts) c = run_tasks errors ts (chown_tree_fchownat errors t.path t.node c)

-- chown_owner_thread from its first change of owner on: the mount point itself, the
-- directories that were met, and then the tasks.
unfoldable pub chown_mountpoint :
    (ℕ → Bool) → (Text → Bool) → (Text → ℕ) → Text → Node → List Text × Cycle
chown_mountpoint alloc foreign errors mountpoint (file size) =
    (if errors mountpoint == 0 then mountpoint ∷ [] else [], no_cycle)
chown_mountpoint alloc foreign errors mountpoint (dir readable es) =
    let own : List Text = if errors mountpoint == 0 then mountpoint ∷ [] else [] in
    let given = λ (p : Text). foreign p && errors p == 0 in
    let e = enqueue_entries alloc given 5 mountpoint es empty [] in
    let c = run_tasks errors e.queue.tasks no_cycle in
    if readable then (own ++ e.lchowned, c) else (own, no_cycle)

-- chown_owner_thread. `owner` is the owner of the mount point, or `none` where `stat` fails. Where no worker
-- starts, the thread runs the tasks itself, in the same order.
unfoldable pub chown_owner_thread :
    (ℕ → Bool) → (Text → Bool) → (Text → ℕ) → Option ℕ → Text → Node → List Text × Cycle
chown_owner_thread alloc foreign errors none mountpoint n = ([], no_cycle)
chown_owner_thread alloc foreign errors (some uid) mountpoint n =
    if uid == 0 then ([], no_cycle) else chown_mountpoint alloc foreign errors mountpoint n
