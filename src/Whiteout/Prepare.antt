-- ===== src/Whiteout/Prepare.antt =====
-- prepare_whiteout_dirs of mbroker/daemon/post_mount.c, when memory and threads are there.
use aiomb.Prelude.{
  ℕ, zero, suc, ◌-◌, List, [], ◌∷◌, ◌++◌, Bool, true, false, ◌||◌, Option, none, some, Text, ◌≡◌,
  refl, inl, inr, Option-cases, arith, text_eq,
}
use aiomb.FileTree.{Node, file, dir, Entries, nil, entry, child_path}
use aiomb.TaskQueue.{
  Queue, task_queue_push, push_all, scan_queue_initial, create_queue_initial, grown,
}
use aiomb.Whiteout.Scan.{
  child_rel, ScanTask, Scanned, and_then, or_itself, whiteout_scan_queue_push,
  enqueue_whiteout_tasks, enqueue_entries, enqueue_layers, whiteout_targets,
}

-- Whether a path is in a list of paths.
unfoldable pub listed : Text → List Text → Bool
listed t [] = false
listed t (u ∷ us) = let rest = listed t us in text_eq t u || rest

pub listed-append : (t : Text) (a b : List Text) → listed t (a ++ b) ≡ (listed t a || listed t b)
unfolding listed
listed-append t [] b = refl
listed-append t (u ∷ a) b = ground (arith, listed-append t a b)

pub targets-append :
    (upper : Text) (a b : List Text)
    → whiteout_targets upper (a ++ b) ≡ whiteout_targets upper a ++ whiteout_targets upper b
unfolding whiteout_targets
targets-append upper [] b = refl
targets-append upper (r ∷ a) b = ground (arith, targets-append upper a b)

pub targets_none : (upper t : Text) → listed t (whiteout_targets upper []) ≡ false
unfolding listed whiteout_targets
targets_none upper t = refl

push-done :
    (alloc : ℕ → Bool) (a : Text) (q : Queue Text)
    → ((k : ℕ) → alloc k ≡ true)
    → (task_queue_push create_queue_initial alloc a q).1 ≡ true
unfolding task_queue_push
push-done alloc a q always = ground (arith, always (grown create_queue_initial q.capacity))

-- A loop of pushes that finds memory succeeds.
pub push_all-some :
    (alloc : ℕ → Bool) (as' : List Text) (q : Queue Text)
    → ((k : ℕ) → alloc k ≡ true)
    → (r : Queue Text) × (push_all create_queue_initial alloc as' q ≡ some r)
unfolding push_all
push_all-some alloc [] q always = (q, refl)
push_all-some alloc (a ∷ as') q always =
    let p = task_queue_push create_queue_initial alloc a q in
    let (r, e) = push_all-some alloc as' p.0 always in (r, rw (push-done alloc a q always) e)

module _ (fnmatch : Text → Text → Bool) (alloc : ℕ → Bool) (always : (k : ℕ) → alloc k ≡ true) where
  push-zero :
      (t : ScanTask) (q : Queue ScanTask) → (whiteout_scan_queue_push fnmatch alloc t q).1 ≡ some 0
  unfolding whiteout_scan_queue_push task_queue_push
  push-zero t q = ground (arith, always (grown scan_queue_initial q.capacity))

  or_itself-zero :
      (t : ScanTask) (r : Scanned)
      → r.1 ≡ some 0
      → (or_itself (whiteout_scan_queue_push fnmatch alloc t) r).1 ≡ some 0
  or_itself-zero t (q, none) h = ground arith
  or_itself-zero t (q, some zero) h = push-zero t q
  or_itself-zero t (q, some (suc n)) h = ground arith

  and_then-zero :
      (r : Scanned) (rest : Queue ScanTask → Scanned)
      → r.1 ≡ some 0
      → ((q : Queue ScanTask) → (rest q).1 ≡ some 0)
      → (and_then r rest).1 ≡ some 0
  and_then-zero (q, none) rest h k = ground arith
  and_then-zero (q, some n) rest h k = elim (Option-cases (rest q).1) [
    | inl fails ↦ ground (arith, k q)
    | inr (m, e) ↦ ground (arith, k q)
  ]

  mutual
    unfolding enqueue_whiteout_tasks enqueue_entries

    tasks-zero :
        (levels : ℕ) (path rel : Text) (n : Node) (q : Queue ScanTask)
        → (enqueue_whiteout_tasks fnmatch alloc levels path rel n q).1 ≡ some 0
    tasks-zero levels path rel (file size) q = refl
    tasks-zero levels path rel (dir readable es) q =
        let t : ScanTask = record { start_path = path; rel_path = rel; node = dir readable es } in
        let below = entries-zero (levels - 1) path rel es q in
        let r = enqueue_entries fnmatch alloc (levels - 1) path rel es q in
        ground (arith, push-zero t q, or_itself-zero t r below)

    entries-zero :
        (levels : ℕ) (path rel : Text) (es : Entries) (q : Queue ScanTask)
        → (enqueue_entries fnmatch alloc levels path rel es q).1 ≡ some 0
    entries-zero levels path rel nil q = refl
    entries-zero levels path rel (entry name n es) q =
        let here =
          enqueue_whiteout_tasks fnmatch alloc levels (child_path path name) (child_rel rel name) n
            q in
        let h = tasks-zero levels (child_path path name) (child_rel rel name) n q in
        let k = λ (q' : Queue ScanTask). entries-zero levels path rel es q' in
        ground (
          arith,
          k q,
          and_then-zero here (λ q'. enqueue_entries fnmatch alloc levels path rel es q') h k,
        )

  pub layers-zero :
      (lstat : Text → Option Node) (layers : List Text) (q : Queue ScanTask)
      → (enqueue_layers fnmatch alloc lstat layers q).1 ≡ some 0
  unfolding enqueue_layers
  layers-zero lstat [] q = refl
  layers-zero lstat (l ∷ ls) q =
      let k = λ (q' : Queue ScanTask). layers-zero lstat ls q' in
      elim (Option-cases (lstat l)) [
        | inl e ↦ rw (e, enqueue_layers) (k q)
        | inr (n, e) ↦
            rw (e, enqueue_layers)
              (and_then-zero (enqueue_whiteout_tasks fnmatch alloc 2 l [] n q)
                (λ q'. enqueue_layers fnmatch alloc lstat ls q') (tasks-zero 2 l [] n q) k)
      ]
