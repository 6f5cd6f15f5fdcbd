-- ===== src/Whiteout/Members.antt =====
-- What the scans find, as the matches of a tree, and what prepare_whiteout_dirs makes of them.
use aiomb.Prelude.{
  ℕ, ◌-◌, List, [], ◌∷◌, ◌++◌, Bool, true, false, ◌||◌, ◌&&◌, not, Text, is_empty, leb,
  if◌then◌else◌, ◌≡◌, refl, sym, ap, ◌∙◌, inl, inr, Bool-cases, arith,
}
use mathlib.Core.List.{append-nil, append_assoc}
use aiomb.FileTree.{Node, file, dir, Entries, nil, entry, child_path, too_long, is_dot}
use aiomb.TaskQueue.{task_queue_push, create_queue_initial, grown}
use aiomb.Whiteout.{whiteout_matches_any}
use aiomb.Whiteout.Scan.{child_rel, Results, ScanTask, scan_whiteout_dirs, scan_entries, scan_all}
use aiomb.Whiteout.Coverage.{tasks_of, entry_tasks}

module _ (fnmatch : Text → Text → Bool) (pats : List Text) where
  -- The matches of a tree: the relative paths of its directories that a pattern matches.
  unfoldable mutual
    pub matches_of : Text → Text → Node → List Text
    matches_of path rel (file size) = []
    matches_of path rel (dir readable es) =
        let below = entry_matches path rel es in
        (if not (is_empty rel) && whiteout_matches_any fnmatch pats rel then rel ∷ [] else [])
        ++ (if readable then below else [])

    pub entry_matches : Text → Text → Entries → List Text
    entry_matches path rel nil = []
    entry_matches path rel (entry name n es) =
        let here = matches_of (child_path path name) (child_rel rel name) n in
        let rest = entry_matches path rel es in
        if is_dot name || too_long (child_path path name) then rest else here ++ rest

  unfoldable pub task_matches : List ScanTask → List Text
  task_matches [] = []
  task_matches (t ∷ ts) = matches_of t.start_path t.rel_path t.node ++ task_matches ts

  pub task_matches-append :
      (a b : List ScanTask) → task_matches (a ++ b) ≡ task_matches a ++ task_matches b
  unfolding task_matches
  task_matches-append [] b = refl
  task_matches-append (t ∷ a) b =
      ap (λ r. matches_of t.start_path t.rel_path t.node ++ r) (task_matches-append a b)
      ∙ sym (
          append_assoc (matches_of t.start_path t.rel_path t.node) (task_matches a)
            (task_matches b))

  module _ (alloc : ℕ → Bool) (always : (k : ℕ) → alloc k ≡ true) where
    tasks-push :
        (rel : Text) (res : Results)
        → (task_queue_push create_queue_initial alloc rel res).0.tasks ≡ res.tasks ++ rel ∷ []
    unfolding task_queue_push
    tasks-push rel res = ground (arith, always (grown create_queue_initial res.capacity))

    mutual
      unfolding scan_whiteout_dirs scan_entries matches_of entry_matches

      tasks-scan_whiteout_dirs :
          (path rel : Text) (n : Node) (res : Results)
          → (scan_whiteout_dirs fnmatch alloc pats path rel n res).tasks
            ≡ res.tasks ++ matches_of path rel n
      tasks-scan_whiteout_dirs path rel (file size) res = sym (append-nil res.tasks)
      tasks-scan_whiteout_dirs path rel (dir readable es) res =
          let added = (task_queue_push create_queue_initial alloc rel res).0 in
          let p = tasks-push rel res in
          let first = tasks-scan_entries path rel es added in
          let second = tasks-scan_entries path rel es res in
          ground (
            arith,
            append-nil res.tasks,
            append_assoc res.tasks (rel ∷ []) (entry_matches path rel es),
          )

      tasks-scan_entries :
          (path rel : Text) (es : Entries) (res : Results)
          → (scan_entries fnmatch alloc pats path rel es res).tasks
            ≡ res.tasks ++ entry_matches path rel es
      tasks-scan_entries path rel nil res = sym (append-nil res.tasks)
      tasks-scan_entries path rel (entry name n es) res =
          let here =
            scan_whiteout_dirs fnmatch alloc pats (child_path path name) (child_rel rel name) n
              res in
          let h = tasks-scan_whiteout_dirs (child_path path name) (child_rel rel name) n res in
          let skip = tasks-scan_entries path rel es res in
          let rest = tasks-scan_entries path rel es here in
          let m = matches_of (child_path path name) (child_rel rel name) n in
          elim (Bool-cases (is_dot name || too_long (child_path path name))) [
            | inl e ↦ rw e skip
            | inr e ↦ rw e (
                rest
                ∙ ap (λ ts. ts ++ entry_matches path rel es) h
                ∙ append_assoc res.tasks m (entry_matches path rel es))
          ]

    pub tasks-scan_all :
        (ts : List ScanTask) (res : Results)
        → (scan_all fnmatch alloc pats ts res).tasks ≡ res.tasks ++ task_matches ts
    unfolding scan_all task_matches
    tasks-scan_all [] res = sym (append-nil res.tasks)
    tasks-scan_all (t ∷ ts) res =
        tasks-scan_all ts (scan_whiteout_dirs fnmatch alloc pats t.start_path t.rel_path t.node res)
        ∙ ap (λ us. us ++ task_matches ts)
            (tasks-scan_whiteout_dirs t.start_path t.rel_path t.node res)
        ∙ append_assoc res.tasks (matches_of t.start_path t.rel_path t.node) (task_matches ts)

  -- A test of a list that asks for one of its members.
  module _ (f : List Text → Bool) (f-nil : f [] ≡ false)
      (f-append : (a b : List Text) → f (a ++ b) ≡ (f a || f b)) where
    absorb : (a b : List Text) → (f b || f (a ++ b)) ≡ f (a ++ b)
    absorb a b = ground (arith, f-append a b)

    one_task :
        (t : ScanTask) → f (task_matches (t ∷ [])) ≡ f (matches_of t.start_path t.rel_path t.node)
    unfolding task_matches
    one_task t = ap f (append-nil (matches_of t.start_path t.rel_path t.node))

    mutual
      unfolding tasks_of entry_tasks matches_of entry_matches task_matches

      pub tasks_of-member :
          (levels : ℕ) (path rel : Text) (n : Node)
          → f (task_matches (tasks_of levels path rel n)) ≡ f (matches_of path rel n)
      tasks_of-member levels path rel (file size) = refl
      tasks_of-member levels path rel (dir false es) = elim (Bool-cases (leb levels 0)) [
        | inl e ↦
            rw e (one_task (record { start_path = path; rel_path = rel; node = dir false es }))
        | inr e ↦
            rw e (one_task (record { start_path = path; rel_path = rel; node = dir false es }))
      ]
      tasks_of-member levels path rel (dir true es) =
          let itself : ScanTask = record {
            start_path = path;
            rel_path = rel;
            node = dir true es;
          } in
          let ts = entry_tasks (levels - 1) path rel es in
          let below = entry_tasks-member (levels - 1) path rel es in
          let own =
            if not (is_empty rel) && whiteout_matches_any fnmatch pats rel then rel ∷ [] else [] in
          elim (Bool-cases (leb levels 0)) [
            | inl whole ↦ rw whole (one_task itself)
            | inr parts ↦ rw parts (
                ap f (task_matches-append ts (itself ∷ []))
                ∙ f-append (task_matches ts) (task_matches (itself ∷ []))
                ∙ ap (λ b. b || f (task_matches (itself ∷ []))) below
                ∙ ap (λ b. f (entry_matches path rel es) || b) (one_task itself)
                ∙ absorb own (entry_matches path rel es))
          ]

      entry_tasks-member :
          (levels : ℕ) (path rel : Text) (es : Entries)
          → f (task_matches (entry_tasks levels path rel es)) ≡ f (entry_matches path rel es)
      entry_tasks-member levels path rel nil = refl
      entry_tasks-member levels path rel (entry name n es) =
          let ts = tasks_of levels (child_path path name) (child_rel rel name) n in
          let us = entry_tasks levels path rel es in
          let here = tasks_of-member levels (child_path path name) (child_rel rel name) n in
          let rest = entry_tasks-member levels path rel es in
          ground (
            arith,
            task_matches-append ts us,
            f-append (task_matches ts) (task_matches us),
            f-append (matches_of (child_path path name) (child_rel rel name) n)
                (entry_matches path rel es),
          )
