-- ===== src/Promote/Coverage.antt =====
-- The marks of the tasks, against the marks of one walk of the whole tree.
use aiomb.Prelude.{
  ℕ, zero, suc, ◌-◌, ◌*◌, ◌==◌, List, [], ◌∷◌, ◌++◌, Bool, true, false, ◌||◌, not, none, some, Text,
  leb, length, if◌then◌else◌, ◌≡◌, refl, sym, ap, ◌∙◌, arith, length-append, inl, inr, Bool-cases,
  Option-cases,
}
use mathlib.Core.List.{append-nil, append_assoc}
use aiomb.FileTree.{Node, file, dir, Entries, nil, entry, child_path, too_long, is_skipped}
use aiomb.TaskQueue.{Queue, empty, task_queue_push, task_queue_initial}
use aiomb.Promote.{
  promote_file, promote_dir, Marks, promote_tree_opendir, promote_entries, Task, Enqueued, push_one,
  and_then, or_itself, enqueue_promote_tasks, enqueue_entries, run_tasks, promote_mountpoint_thread,
  child_levels,
}

-- The files among the marks.
unfoldable pub files : Marks → List Text
files [] = []
files ((promote_file, p) ∷ ms) = p ∷ files ms
files ((promote_dir, p) ∷ ms) = files ms

abbrev or_self : List Task → Task → List Task
or_self [] t = t ∷ []
or_self (u ∷ us) t = u ∷ us

-- The tasks of a tree, without a queue.
unfoldable mutual
  tasks_of : ℕ → Text → Node → List Task
  tasks_of levels path (file size) = record { path = path; node = file size } ∷ []
  tasks_of levels path (dir readable es) =
      let itself : Task = record { path = path; node = dir readable es } in
      let below = or_self (entry_tasks (levels - 1) path es) itself in
      if leb levels 0 || not readable then itself ∷ [] else below

  entry_tasks : ℕ → Text → Entries → List Task
  entry_tasks levels path nil = []
  entry_tasks levels path (entry name n es) =
      let here = tasks_of levels (child_path path name) n in
      let rest = entry_tasks levels path es in
      if is_skipped name || too_long (child_path path name) then rest else here ++ rest

-- What an enqueue without failure does: the tasks are appended, and counted.
abbrev Adds : Queue Task → List Task → Enqueued → Type 0
Adds q ts r = (r.0.tasks ≡ q.tasks ++ ts) × (r.1 ≡ some (length ts))

push_one-Adds :
    (alloc : ℕ → Bool) (t : Task) (q : Queue Task)
    → ((n : ℕ) → alloc n ≡ true)
    → Adds q (t ∷ []) (push_one alloc t q)
unfolding push_one task_queue_push
push_one-Adds alloc t q always =
    let a = always (if q.capacity == 0 then task_queue_initial else q.capacity * 2) in
    ground (arith)

or_itself-Adds :
    (alloc : ℕ → Bool) (t : Task) (q : Queue Task) (ts : List Task) (r : Enqueued)
    → ((n : ℕ) → alloc n ≡ true)
    → Adds q ts r
    → Adds q (or_self ts t) (or_itself (push_one alloc t) r)
or_itself-Adds alloc t q [] (q', some zero) always (e, c) =
    let h = push_one-Adds alloc t q' always in
    (h.0 ∙ ap (λ us. us ++ t ∷ []) (e ∙ append-nil q.tasks), h.1)
or_itself-Adds alloc t q [] (q', some (suc n)) always (e, c) = ground arith
or_itself-Adds alloc t q (u ∷ us) (q', some zero) always (e, c) = ground arith
or_itself-Adds alloc t q (u ∷ us) (q', some (suc n)) always (e, c) = (e, c)
or_itself-Adds alloc t q ts (q', none) always (e, c) = ground arith

and_then-Adds :
    (q : Queue Task) (ts us : List Task) (r : Enqueued) (rest : Queue Task → Enqueued)
    → Adds q ts r
    → ((q' : Queue Task) → Adds q' us (rest q'))
    → Adds q (ts ++ us) (and_then r rest)
and_then-Adds q ts us (q', none) rest (e, c) h = ground arith
and_then-Adds q ts us (q', some n) rest (e, c) h = elim (Option-cases (rest q').1) [
  | inl none_left ↦ ground (arith, h q')
  | inr (m, done) ↦ ground (arith, h q', length-append ts us, append_assoc q.tasks ts us)
]

mutual
  unfolding enqueue_promote_tasks enqueue_entries tasks_of entry_tasks

  enqueue_promote_tasks-Adds :
      (alloc : ℕ → Bool) (levels : ℕ) (path : Text) (n : Node) (q : Queue Task)
      → ((k : ℕ) → alloc k ≡ true)
      → Adds q (tasks_of levels path n) (enqueue_promote_tasks alloc levels path n q)
  enqueue_promote_tasks-Adds alloc levels path (file size) q always =
      push_one-Adds alloc (record { path = path; node = file size }) q always
  enqueue_promote_tasks-Adds alloc levels path (dir readable es) q always =
      let t : Task = record { path = path; node = dir readable es } in
      let below = enqueue_entries-Adds alloc (levels - 1) path es q always in
      elim (Bool-cases (leb levels 0 || not readable)) [
        | inl whole ↦ rw whole (push_one-Adds alloc t q always)
        | inr parts ↦ rw parts (
            or_itself-Adds alloc t q (entry_tasks (levels - 1) path es)
              (enqueue_entries alloc (levels - 1) path es q) always below)
      ]

  enqueue_entries-Adds :
      (alloc : ℕ → Bool) (levels : ℕ) (path : Text) (es : Entries) (q : Queue Task)
      → ((k : ℕ) → alloc k ≡ true)
      → Adds q (entry_tasks levels path es) (enqueue_entries alloc levels path es q)
  enqueue_entries-Adds alloc levels path nil q always = (sym (append-nil q.tasks), refl)
  enqueue_entries-Adds alloc levels path (entry name n es) q always =
      let here = enqueue_promote_tasks-Adds alloc levels (child_path path name) n q always in
      let rest = λ (q' : Queue Task). enqueue_entries-Adds alloc levels path es q' always in
      elim (Bool-cases (is_skipped name || too_long (child_path path name))) [
        | inl skip ↦ rw skip (rest q)
        | inr keep ↦ rw keep (
            and_then-Adds q (tasks_of levels (child_path path name) n) (entry_tasks levels path es)
              (enqueue_promote_tasks alloc levels (child_path path name) n q)
              (λ q'. enqueue_entries alloc levels path es q') here rest)
      ]

pub files-append : (a b : Marks) → files (a ++ b) ≡ files a ++ files b
unfolding files
files-append [] b = refl
files-append ((promote_file, p) ∷ a) b = ap (λ r. p ∷ r) (files-append a b)
files-append ((promote_dir, p) ∷ a) b = files-append a b

run_tasks-append : (a b : List Task) → run_tasks (a ++ b) ≡ run_tasks a ++ run_tasks b
unfolding run_tasks
run_tasks-append [] b = refl
run_tasks-append (t ∷ a) b =
    ap (λ r. promote_tree_opendir t.path t.node ++ r) (run_tasks-append a b)
    ∙ sym (append_assoc (promote_tree_opendir t.path t.node) (run_tasks a) (run_tasks b))

run_none : run_tasks [] ≡ []
unfolding run_tasks
run_none = refl

run_one : (t : Task) → run_tasks (t ∷ []) ≡ promote_tree_opendir t.path t.node
unfolding run_tasks
run_one t = append-nil (promote_tree_opendir t.path t.node)

-- A directory that stands for itself is walked; one whose entries are tasks has their files.
files-or_self :
    (path : Text) (es : Entries) (ts : List Task)
    → files (run_tasks ts) ≡ files (promote_entries path es)
    → files (run_tasks (or_self ts (record { path = path; node = dir true es })))
      ≡ files (promote_tree_opendir path (dir true es))
unfolding files promote_tree_opendir
files-or_self path es [] h = ap files (run_one (record { path = path; node = dir true es }))
files-or_self path es (t ∷ ts) h = h

mutual
  unfolding tasks_of entry_tasks promote_tree_opendir promote_entries

  files-tasks_of :
      (levels : ℕ) (path : Text) (n : Node)
      → files (run_tasks (tasks_of levels path n)) ≡ files (promote_tree_opendir path n)
  files-tasks_of levels path (file size) =
      ap files (run_one (record { path = path; node = file size }))
  files-tasks_of levels path (dir false es) = elim (Bool-cases (leb levels 0)) [
    | inl whole ↦ rw whole (ap files (run_one (record { path = path; node = dir false es })))
    | inr parts ↦ rw parts (ap files (run_one (record { path = path; node = dir false es })))
  ]
  files-tasks_of levels path (dir true es) = elim (Bool-cases (leb levels 0)) [
    | inl whole ↦ rw whole (ap files (run_one (record { path = path; node = dir true es })))
    | inr parts ↦ rw parts (
        files-or_self path es (entry_tasks (levels - 1) path es)
          (files-entry_tasks (levels - 1) path es))
  ]

  files-entry_tasks :
      (levels : ℕ) (path : Text) (es : Entries)
      → files (run_tasks (entry_tasks levels path es)) ≡ files (promote_entries path es)
  files-entry_tasks levels path nil = ap files run_none
  files-entry_tasks levels path (entry name n es) =
      let ts = tasks_of levels (child_path path name) n in
      let us = entry_tasks levels path es in
      let here = files-tasks_of levels (child_path path name) n in
      let rest = files-entry_tasks levels path es in
      elim (Bool-cases (is_skipped name || too_long (child_path path name))) [
        | inl skip ↦ rw skip rest
        | inr keep ↦ rw keep (
            ap files (run_tasks-append ts us)
            ∙ files-append (run_tasks ts) (run_tasks us)
            ∙ ap (λ r. r ++ files (run_tasks us)) here
            ∙ ap (λ r. files (promote_tree_opendir (child_path path name) n) ++ r) rest
            ∙ sym (
                files-append (promote_tree_opendir (child_path path name) n)
                  (promote_entries path es)))
      ]

-- When no allocation fails, and one worker runs the tasks in the order of their claims, the tasks of a mount point
-- mark the same files in the same order as one walk of the whole tree; the split loses no file and marks none twice.
-- More workers, one for each processor, mark what the tasks mark in an order of their own.
pub files-promote_mountpoint_thread :
    (alloc : ℕ → Bool) (mountpoint : Text) (readable : Bool) (es : Entries)
    → ((k : ℕ) → alloc k ≡ true)
    → files (promote_mountpoint_thread alloc mountpoint (dir readable es))
      ≡ files (promote_tree_opendir mountpoint (dir readable es))
unfolding promote_mountpoint_thread promote_tree_opendir files
files-promote_mountpoint_thread alloc mountpoint false es always = refl
files-promote_mountpoint_thread alloc mountpoint true es always =
    let (e, c) = enqueue_entries-Adds alloc child_levels mountpoint es empty always in
    ap (λ ts. files (run_tasks ts)) e ∙ files-entry_tasks child_levels mountpoint es
