-- ===== src/Promote/Examples.antt =====
-- Trees, and runs of mbroker/daemon/promote.c on them.
use aiomb.Prelude.{ℕ, ◌*◌, [], ◌∷◌, Bool, true, codes, ◌≡◌, refl, text_eq}
use aiomb.FileTree.{file, dir, Entries, nil, entry, is_skipped}
use aiomb.TaskQueue.{task_queue_push, empty}
use aiomb.Promote.{
  promote_file, promote_dir, promote_tree_opendir, promote_mountpoint_thread, run_tasks,
  enqueue_entries, push_one, child_levels, Marks,
}
use aiomb.Promote.Coverage.{files}
use aiomb.Promote.Workers.{Interleaved, no_task, one_more, left, right, done, count, count-workers}

abbrev always : ℕ → Bool
always n = true

-- a directory with two files, one of them too large, an empty directory, and one that is passed over
abbrev tree : Entries
tree =
    entry (codes "a")
      (dir true (entry (codes "x") (file 7) (entry (codes "big") (file (200 * 1024 * 1024)) nil)))
      (entry (codes "e") (dir true nil)
        (entry (codes ".git") (dir true (entry (codes "y") (file 1) nil)) nil))

-- The directory "a" has tasks below it, and no mark of its own; the empty one is a task.
split_run :
    promote_mountpoint_thread always (codes "/m") (dir true tree)
    ≡ (promote_file, codes "/m/a/x") ∷ (promote_dir, codes "/m/e") ∷ []
unfolding promote_mountpoint_thread run_tasks enqueue_entries is_skipped text_eq push_one
    task_queue_push promote_tree_opendir
split_run = refl

whole_run :
    promote_tree_opendir (codes "/m") (dir true tree)
    ≡ (promote_dir, codes "/m")
      ∷ (promote_dir, codes "/m/a")
      ∷ (promote_file, codes "/m/a/x")
      ∷ (promote_dir, codes "/m/e")
      ∷ []
unfolding promote_tree_opendir is_skipped text_eq
whole_run = refl

-- One worker marks "e" before another marks "a/x".
abbrev marks : Marks
marks = (promote_dir, codes "/m/e") ∷ (promote_file, codes "/m/a/x") ∷ []

two_workers :
    Interleaved (enqueue_entries always child_levels (codes "/m") tree empty).0.tasks marks
unfolding enqueue_entries is_skipped text_eq push_one task_queue_push promote_tree_opendir
two_workers =
    one_more _ (one_more _ (one_more _ no_task (left _ done)) (right _ done))
      (right _ (left _ done))

count-workers_example :
    count (codes "/m/a/x") (files marks)
    ≡ count (codes "/m/a/x") (files (promote_tree_opendir (codes "/m") (dir true tree)))
count-workers_example =
    count-workers always (codes "/m") tree marks (codes "/m/a/x") (λ k. refl) two_workers
