-- ===== src/Promote/Workers.antt =====
-- The workers of mbroker/daemon/promote.c at once: each runs whole tasks, and their marks interleave.
use aiomb.Prelude.{
  ℕ, ◌+◌, List, [], ◌∷◌, ◌++◌, Bool, true, Text, text_eq, if◌then◌else◌, ◌≡◌, refl, ap, ◌∙◌, arith,
}
use aiomb.FileTree.{Entries, dir}
use aiomb.TaskQueue.{empty}
use aiomb.Promote.{
  promote_file, promote_dir, Marks, promote_tree_opendir, Task, enqueue_entries, run_tasks,
  child_levels, promote_mountpoint_thread,
}
use aiomb.Promote.Coverage.{files, files-append, files-promote_mountpoint_thread}

-- The third list has the items of the first two, each in its order.
pub data Merge {ℓ} {A : Type ℓ} : List A → List A → List A → Type ℓ where
  done : Merge [] [] []
  left : {xs ys zs : List A} → (x : A) → Merge xs ys zs → Merge (x ∷ xs) ys (x ∷ zs)
  right : {xs ys zs : List A} → (y : A) → Merge xs ys zs → Merge xs (y ∷ ys) (y ∷ zs)

-- Marks that the tasks leave, whichever workers run them, and however these interleave.
pub data Interleaved : List Task → Marks → Type 0 where
  no_task : Interleaved [] []
  one_more :
      {ts : List Task} {rest marks : Marks}
      → (t : Task) → Interleaved ts rest
      → Merge (promote_tree_opendir t.path t.node) rest marks
      → Interleaved (t ∷ ts) marks

-- How often a path is in a list.
unfoldable pub count : Text → List Text → ℕ
count p [] = 0
count p (q ∷ qs) = (if text_eq q p then 1 else 0) + count p qs

count-append : (p : Text) (a b : List Text) → count p (a ++ b) ≡ count p a + count p b
unfolding count
count-append p [] b = omega arith
count-append p (q ∷ a) b = omega (arith, count-append p a b)

count-Merge :
    (p : Text) {xs ys zs : Marks}
    → Merge xs ys zs
    → count p (files zs) ≡ count p (files xs) + count p (files ys)
unfolding count files
count-Merge p done = refl
count-Merge p (left (promote_file, q) m) = omega (arith, count-Merge p m)
count-Merge p (left (promote_dir, q) m) = omega (arith, count-Merge p m)
count-Merge p (right (promote_file, q) m) = omega (arith, count-Merge p m)
count-Merge p (right (promote_dir, q) m) = omega (arith, count-Merge p m)

-- Every interleaving marks a file as often as one worker does.
count-Interleaved :
    (p : Text) {ts : List Task} {marks : Marks}
    → Interleaved ts marks
    → count p (files marks) ≡ count p (files (run_tasks ts))
unfolding run_tasks files
count-Interleaved p no_task = refl
count-Interleaved p (one_more {ts} {rest} {marks} t run m) =
    let one = promote_tree_opendir t.path t.node in
    let split = ap (count p) (files-append one (run_tasks ts)) in
    let apart = count-append p (files one) (files (run_tasks ts)) in
    omega (arith, count-Merge p m, count-Interleaved p run, split, apart)

-- When no allocation fails and the mount point can be opened, its tasks mark every file as often as one walk of the
-- whole tree does, whichever workers run them and however their marks interleave: the split loses no file and marks
-- none twice.
pub count-workers :
    (alloc : ℕ → Bool) (mountpoint : Text) (es : Entries) (marks : Marks) (p : Text)
    → ((k : ℕ) → alloc k ≡ true)
    → Interleaved (enqueue_entries alloc child_levels mountpoint es empty).0.tasks marks
    → count p (files marks) ≡ count p (files (promote_tree_opendir mountpoint (dir true es)))
unfolding promote_mountpoint_thread
count-workers alloc mountpoint es marks p always run =
    count-Interleaved p run
    ∙ ap (count p) (files-promote_mountpoint_thread alloc mountpoint true es always)
