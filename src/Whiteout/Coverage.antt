-- ===== src/Whiteout/Coverage.antt =====
-- The tasks of a lower layer against one scan of it.
use aiomb.Prelude.{
  ℕ, zero, suc, ◌-◌, List, [], ◌∷◌, ◌++◌, Bool, ◌||◌, not, none, some, Text, leb, if◌then◌else◌,
  ◌≡◌, refl, sym, ap, ◌∙◌, ◌⊎◌, inl, inr, Bool-cases, arith,
}
use mathlib.Core.List.{append-nil, append_assoc}
use aiomb.FileTree.{Node, file, dir, Entries, nil, entry, child_path, too_long, is_dot}
use aiomb.TaskQueue.{Queue, task_queue_push}
use aiomb.Whiteout.Scan.{
  child_rel, ScanTask, Scanned, and_then, or_itself, whiteout_scan_queue_push,
  enqueue_whiteout_tasks, enqueue_entries,
}

-- The tasks of a tree: its subtrees down to the split depth, and then the tree itself.
unfoldable mutual
  pub tasks_of : ℕ → Text → Text → Node → List ScanTask
  tasks_of levels path rel (file size) = []
  tasks_of levels path rel (dir readable es) =
      let itself : ScanTask = record {
        start_path = path;
        rel_path = rel;
        node = dir readable es;
      } in
      let below = entry_tasks (levels - 1) path rel es in
      if leb levels 0 || not readable then itself ∷ [] else below ++ itself ∷ []

  pub entry_tasks : ℕ → Text → Text → Entries → List ScanTask
  entry_tasks levels path rel nil = []
  entry_tasks levels path rel (entry name n es) =
      let here = tasks_of levels (child_path path name) (child_rel rel name) n in
      let rest = entry_tasks levels path rel es in
      if is_dot name || too_long (child_path path name) then rest else here ++ rest

-- A call that fails for lack of memory, or returns 0 after appending tasks.
abbrev pub FailsOrAdds : Queue ScanTask → List ScanTask → Scanned → Type 0
FailsOrAdds q ts r = (r.1 ≡ none) ⊎ ((r.0.tasks ≡ q.tasks ++ ts) × (r.1 ≡ some 0))

module _ (fnmatch : Text → Text → Bool) (alloc : ℕ → Bool) where
  push-FailsOrAdds :
      (t : ScanTask) (q : Queue ScanTask)
      → FailsOrAdds q (t ∷ []) (whiteout_scan_queue_push fnmatch alloc t q)
  unfolding whiteout_scan_queue_push task_queue_push
  push-FailsOrAdds t q = ground arith

  or_itself-FailsOrAdds :
      (t : ScanTask) (q : Queue ScanTask) (ts : List ScanTask) (r : Scanned)
      → FailsOrAdds q ts r
      → FailsOrAdds q (ts ++ t ∷ []) (or_itself (whiteout_scan_queue_push fnmatch alloc t) r)
  or_itself-FailsOrAdds t q ts (q', none) h = inl refl
  or_itself-FailsOrAdds t q ts (q', some zero) (inl h) = ground arith
  or_itself-FailsOrAdds t q ts (q', some zero) (inr (e, z)) = elim (push-FailsOrAdds t q') [
    | inl fails ↦ inl fails
    | inr (added, ok) ↦
        inr (added ∙ ap (λ us. us ++ t ∷ []) e ∙ append_assoc q.tasks ts (t ∷ []), ok)
  ]
  or_itself-FailsOrAdds t q ts (q', some (suc n)) h = ground arith

  pub and_then-FailsOrAdds :
      (q : Queue ScanTask) (ts us : List ScanTask) (r : Scanned) (rest : Queue ScanTask → Scanned)
      → FailsOrAdds q ts r
      → ((q' : Queue ScanTask) → FailsOrAdds q' us (rest q'))
      → FailsOrAdds q (ts ++ us) (and_then r rest)
  and_then-FailsOrAdds q ts us (q', none) rest h k = inl refl
  and_then-FailsOrAdds q ts us (q', some n) rest (inl h) k = ground arith
  and_then-FailsOrAdds q ts us (q', some n) rest (inr (e, z)) k = elim (k q') [
    | inl fails ↦ inl (ground arith)
    | inr (added, ok) ↦ ground (arith, append_assoc q.tasks ts us)
  ]

  mutual
    unfolding enqueue_whiteout_tasks enqueue_entries tasks_of entry_tasks

    pub tree-FailsOrAdds :
        (levels : ℕ) (path rel : Text) (n : Node) (q : Queue ScanTask)
        → FailsOrAdds q
            (tasks_of levels path rel n)
            (enqueue_whiteout_tasks fnmatch alloc levels path rel n q)
    tree-FailsOrAdds levels path rel (file size) q = inr (sym (append-nil q.tasks), refl)
    tree-FailsOrAdds levels path rel (dir readable es) q =
        let t : ScanTask = record { start_path = path; rel_path = rel; node = dir readable es } in
        let below = entries-FailsOrAdds (levels - 1) path rel es q in
        elim (Bool-cases (leb levels 0 || not readable)) [
          | inl whole ↦ rw whole (push-FailsOrAdds t q)
          | inr parts ↦ rw parts (
              or_itself-FailsOrAdds t q (entry_tasks (levels - 1) path rel es)
                (enqueue_entries fnmatch alloc (levels - 1) path rel es q) below)
        ]

    entries-FailsOrAdds :
        (levels : ℕ) (path rel : Text) (es : Entries) (q : Queue ScanTask)
        → FailsOrAdds q
            (entry_tasks levels path rel es)
            (enqueue_entries fnmatch alloc levels path rel es q)
    entries-FailsOrAdds levels path rel nil q = inr (sym (append-nil q.tasks), refl)
    entries-FailsOrAdds levels path rel (entry name n es) q =
        let here = tree-FailsOrAdds levels (child_path path name) (child_rel rel name) n q in
        let rest = λ (q' : Queue ScanTask). entries-FailsOrAdds levels path rel es q' in
        elim (Bool-cases (is_dot name || too_long (child_path path name))) [
          | inl skip ↦ rw skip (rest q)
          | inr keep ↦ rw keep (
              and_then-FailsOrAdds q (tasks_of levels (child_path path name) (child_rel rel name) n)
                (entry_tasks levels path rel es)
                (enqueue_whiteout_tasks fnmatch alloc levels (child_path path name)
                  (child_rel rel name) n q)
                (λ q'. enqueue_entries fnmatch alloc levels path rel es q') here rest)
        ]

  -- enqueue_whiteout_tasks either fails for lack of memory or returns 0, however many tasks it pushed;
  -- so a directory that was split is itself the last task, and is scanned again as a whole.
  pub enqueue_whiteout_tasks_lem :
      (levels : ℕ) (path rel : Text) (n : Node) (q : Queue ScanTask)
      → FailsOrAdds q
          (tasks_of levels path rel n)
          (enqueue_whiteout_tasks fnmatch alloc levels path rel n q)
  enqueue_whiteout_tasks_lem levels path rel n q = tree-FailsOrAdds levels path rel n q
