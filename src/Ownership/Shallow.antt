-- ===== src/Ownership/Shallow.antt =====
-- What the split of mbroker/daemon/ownership.c leaves out: files that become tasks themselves.
use aiomb.Prelude.{
  ℕ, zero, suc, ◌+◌, ◌-◌, ◌<◌, Option, none, inl, inr, Bool-cases, ◌==◌, List, [], ◌∷◌, ◌++◌, Bool,
  true, false, ◌||◌, ◌&&◌, not, some, Text, leb, ltb, if◌then◌else◌, ◌≡◌, refl, sym, ◌∙◌, arith,
  All, All-append,
}
use mathlib.Core.Path.{subst}
use aiomb.FileTree.{Node, file, dir, Entries, nil, entry, child_path, too_long, is_dot}
use aiomb.TaskQueue.{Queue, empty, task_queue_push, task_queue_initial, grown}
use aiomb.Ownership.{
  is_expected_chown_race_errno, is_tolerated, Cycle, no_cycle, chown_one, chown_tree_fchownat,
  ChownTask, Enqueued, push_one, and_then, or_itself, enqueue_chown_tasks_up_to_depth,
  enqueue_entries, run_tasks, chown_mountpoint, chown_owner_thread,
}

-- The tree ends before the split depth: `levels` more directories at most, each of them readable, with
-- paths that fit, and no dot entries.
unfoldable mutual
  is_shallow : ℕ → Text → Node → Bool
  is_shallow levels path (file size) = true
  is_shallow levels path (dir readable es) =
      let below = shallow_entries (levels - 1) path es in ltb 0 levels && (readable && below)

  pub shallow_entries : ℕ → Text → Entries → Bool
  shallow_entries levels path nil = true
  shallow_entries levels path (entry name n es) =
      let here = is_shallow levels (child_path path name) n in
      let rest = shallow_entries levels path es in
      not (is_dot name || too_long (child_path path name)) && (here && rest)

-- The paths of the directories of a tree.
unfoldable mutual
  pub dirs_of : Text → Node → List Text
  dirs_of path (file size) = []
  dirs_of path (dir readable es) = path ∷ entry_dirs path es

  pub entry_dirs : Text → Entries → List Text
  entry_dirs path nil = []
  entry_dirs path (entry name n es) = dirs_of (child_path path name) n ++ entry_dirs path es

abbrev is_nil : Entries → Bool
is_nil nil = true
is_nil (entry name n es) = false

-- A task that gives no file to anyone: a file itself, or a directory without entries, whose path has the property.
abbrev Fileless : (Text → Type 0) → Text → Node → Type 0
Fileless P path (file size) = Unit
Fileless P path (dir readable nil) = P path
Fileless P path (dir readable (entry name n es)) = ⊥

module _ (P : Text → Type 0) (alloc : ℕ → Bool) (always : (k : ℕ) → alloc k ≡ true) where
  abbrev AllFileless : List ChownTask → Type 0
  AllFileless ts = All (λ (t : ChownTask). Fileless P t.path t.node) ts

  push_one_lem :
      (t : ChownTask) (q : Queue ChownTask) (ds : List Text)
      → ((push_one alloc t q ds).queue.tasks ≡ q.tasks ++ t ∷ [])
        × ((push_one alloc t q ds).result ≡ some 1)
  unfolding push_one task_queue_push
  push_one_lem t q ds = ground (arith, always (grown task_queue_initial q.capacity))

  lchowned-push_one :
      (t : ChownTask) (q : Queue ChownTask) (ds : List Text) → (push_one alloc t q ds).lchowned ≡ ds
  unfolding push_one
  lchowned-push_one t q ds = refl

  or_itself-some :
      (push : Queue ChownTask → List Text → Enqueued) (e : Enqueued) (k : ℕ)
      → e.result ≡ some (suc k)
      → or_itself push e ≡ e
  unfolding or_itself
  or_itself-some push e k h = rw h refl

  or_itself-zero :
      (push : Queue ChownTask → List Text → Enqueued) (e : Enqueued)
      → e.result ≡ some 0
      → or_itself push e ≡ push e.queue e.lchowned
  unfolding or_itself
  or_itself-zero push e h = rw h refl

  and_then-some :
      (e : Enqueued) (rest : Queue ChownTask → List Text → Enqueued) (m n : ℕ)
      → e.result ≡ some m
      → (rest e.queue e.lchowned).result ≡ some n
      → ((and_then e rest).queue ≡ (rest e.queue e.lchowned).queue)
        × ((and_then e rest).lchowned ≡ (rest e.queue e.lchowned).lchowned)
        × ((and_then e rest).result ≡ some (m + n))
  unfolding and_then
  and_then-some e rest m n h h' = rw (h, h') (refl, refl, refl)

  -- What a node adds to a queue whose tasks have no file below them.
  abbrev Kept : Enqueued → Type 0
  Kept e = AllFileless e.queue.tasks × All P e.lchowned × (k : ℕ) × (e.result ≡ some (suc k))

  push_one-Kept :
      (t : ChownTask) (q : Queue ChownTask) (ds : List Text)
      → AllFileless q.tasks
      → All P ds
      → Fileless P t.path t.node
      → Kept (push_one alloc t q ds)
  push_one-Kept t q ds h a e =
      let (tasks, result) = push_one_lem t q ds in
      let all =
        All-append (λ (u : ChownTask). Fileless P u.path u.node) q.tasks (t ∷ []) h (e, tt) in
      (
        subst AllFileless (sym tasks) all,
        subst (All P) (sym (lchowned-push_one t q ds)) a,
        0,
        result,
      )

  itself-Kept :
      (t : ChownTask) (r : Enqueued)
      → AllFileless r.queue.tasks
      → All P r.lchowned
      → Fileless P t.path t.node
      → r.result ≡ some 0
      → Kept (or_itself (push_one alloc t) r)
  itself-Kept t r h a f z =
      subst Kept (sym (or_itself-zero (push_one alloc t) r z))
        (push_one-Kept t r.queue r.lchowned h a f)

  below-Kept :
      (t : ChownTask) (r : Enqueued) (k : ℕ)
      → AllFileless r.queue.tasks
      → All P r.lchowned
      → r.result ≡ some k
      → 0 < k
      → Kept (or_itself (push_one alloc t) r)
  below-Kept t r zero h a e pos = ground arith
  below-Kept t r (suc k) h a e pos =
      subst Kept (sym (or_itself-some (push_one alloc t) r k e)) (h, a, k, e)

  shallow_entry :
      (a b c : Bool) → (not a && (b && c)) ≡ true → (a ≡ false) × (b ≡ true) × (c ≡ true)
  shallow_entry a b c h = ground arith

  shallow_dir :
      (levels : ℕ) (b c : Bool)
      → (ltb 0 levels && (b && c)) ≡ true
      → ((leb levels 0 || not b) ≡ false) × (c ≡ true)
  shallow_dir levels b c h = ground arith

  met_dir :
      (b : Bool) (path : Text) (ds : List Text)
      → P path
      → All P ds
      → All P (if b then ds ++ path ∷ [] else ds)
  met_dir true path ds p a = All-append P ds (path ∷ []) a (p, tt)
  met_dir false path ds p a = a

  All-split : (xs ys : List Text) → All P (xs ++ ys) → All P xs × All P ys
  All-split [] ys a = (tt, a)
  All-split (x ∷ xs) ys a = let (l, r) = All-split xs ys a.1 in ((a.0, l), r)

  module _ (foreign : Text → Bool) where
    mutual
      unfolding enqueue_chown_tasks_up_to_depth enqueue_entries is_shallow shallow_entries dirs_of
          entry_dirs

      node-Kept :
          (levels : ℕ) (path : Text) (n : Node) (q : Queue ChownTask) (ds : List Text)
          → AllFileless q.tasks
          → All P ds
          → All P (dirs_of path n)
          → is_shallow levels path n ≡ true
          → Kept (enqueue_chown_tasks_up_to_depth alloc foreign levels path n q ds)
      node-Kept levels path (file size) q ds h a p s =
          push_one-Kept (record { path = path; node = file size }) q ds h a tt
      node-Kept levels path (dir readable nil) q ds h a p s =
          let t : ChownTask = record { path = path; node = dir readable nil } in
          let ds' = if foreign path then ds ++ path ∷ [] else ds in
          let r : Enqueued = record { queue = q; lchowned = ds'; result = some 0 } in
          let (deep, more) = shallow_dir levels readable true s in
          rw deep (itself-Kept t r h (met_dir (foreign path) path ds p.0 a) p.0 refl)
      node-Kept levels path (dir readable (entry name n es)) q ds h a p s =
          let t : ChownTask = record { path = path; node = dir readable (entry name n es) } in
          let ds' = if foreign path then ds ++ path ∷ [] else ds in
          let e = enqueue_entries alloc foreign (levels - 1) path (entry name n es) q ds' in
          let (deep, more) =
            shallow_dir levels readable (shallow_entries (levels - 1) path (entry name n es)) s in
          let (all, own, k, some_k, pos) =
            entries-Kept (levels - 1) path (entry name n es) q ds' h
              (met_dir (foreign path) path ds p.0 a) p.1 more in
          rw deep (below-Kept t e k all own some_k (pos refl))

      entries-Kept :
          (levels : ℕ) (path : Text) (es : Entries) (q : Queue ChownTask) (ds : List Text)
          → AllFileless q.tasks
          → All P ds
          → All P (entry_dirs path es)
          → shallow_entries levels path es ≡ true
          → AllFileless (enqueue_entries alloc foreign levels path es q ds).queue.tasks
            × All P (enqueue_entries alloc foreign levels path es q ds).lchowned
            × (k : ℕ) × ((enqueue_entries alloc foreign levels path es q ds).result ≡ some k)
            × (is_nil es ≡ false → 0 < k)
      entries-Kept levels path nil q ds h a p s = (h, a, 0, refl, λ e. ground arith)
      entries-Kept levels path (entry name n es) q ds h a p s =
          let child = child_path path name in
          let e = enqueue_chown_tasks_up_to_depth alloc foreign levels child n q ds in
          let (s1, s2, s3) =
            shallow_entry (is_dot name || too_long child) (is_shallow levels child n)
              (shallow_entries levels path es) s in
          let (p1, p2) = All-split (dirs_of child n) (entry_dirs path es) p in
          let (all, own, k, some_k) = node-Kept levels child n q ds h a p1 s2 in
          let (all', own', k', some_k', pos) =
            entries-Kept levels path es e.queue e.lchowned all own p2 s3 in
          let (same, same', total) =
            and_then-some e (λ q' ds'. enqueue_entries alloc foreign levels path es q' ds') (suc k)
              k' some_k some_k' in
          rw s1 (
            subst (λ (q' : Queue ChownTask). AllFileless q'.tasks) (sym same) all',
            subst (All P) (sym same') own',
            suc k + k',
            total,
            λ e'. omega arith,
          )

  other_owned :
      (err : ℕ) (c : Cycle)
      → All P c.owned
      → All P
          (if is_expected_chown_race_errno err
            then record c { race_skips = c.race_skips + 1 }
            else if is_tolerated err
            then c
            else record c { errors = c.errors + 1 }).owned
  other_owned err c a = elim (Bool-cases (is_expected_chown_race_errno err)) [
    | inl e ↦ rw e a
    | inr e ↦ elim (Bool-cases (is_tolerated err)) [ inl e' ↦ rw (e, e') a | inr e' ↦ rw (e, e') a ]
  ]

  files_seen-chown_one :
      (err : ℕ) (path : Text) (c : Cycle) → (chown_one err path c).files_seen ≡ c.files_seen
  unfolding chown_one
  files_seen-chown_one err path c = ground arith

  chown_one-All :
      (err : ℕ) (path : Text) (c : Cycle)
      → P path
      → All P c.owned
      → All P (chown_one err path c).owned
  unfolding chown_one
  chown_one-All err path c p a = elim (Bool-cases (err == 0)) [
    | inl e ↦ rw e (All-append P c.owned (path ∷ []) a (p, tt))
    | inr e ↦ rw e (other_owned err c a)
  ]

  task-All :
      (errors : Text → ℕ) (path : Text) (n : Node) (c : Cycle)
      → Fileless P path n
      → All P c.owned
      → All P (chown_tree_fchownat errors path n c).owned
        × ((chown_tree_fchownat errors path n c).files_seen ≡ c.files_seen)
  unfolding chown_tree_fchownat
  task-All errors path (file size) c f a = (a, refl)
  task-All errors path (dir true nil) c p a =
      (chown_one-All (errors path) path c p a, files_seen-chown_one (errors path) path c)
  task-All errors path (dir false nil) c p a = (a, refl)
  task-All errors path (dir readable (entry name n es)) c f a = absurd f

  run_tasks-All :
      (errors : Text → ℕ) (ts : List ChownTask) (c : Cycle)
      → AllFileless ts
      → All P c.owned
      → All P (run_tasks errors ts c).owned × ((run_tasks errors ts c).files_seen ≡ c.files_seen)
  unfolding run_tasks
  run_tasks-All errors [] c h a = (a, refl)
  run_tasks-All errors (t ∷ ts) c (f, h) a =
      let (own, seen) = task-All errors t.path t.node c f a in
      let (own', seen') =
        run_tasks-All errors ts (chown_tree_fchownat errors t.path t.node c) h own in
      (own', seen' ∙ seen)

  mountpoint-All :
      (foreign : Text → Bool) (errors : Text → ℕ) (mountpoint : Text) (readable : Bool)
      (es : Entries)
      → shallow_entries 5 mountpoint es ≡ true
      → P mountpoint
      → All P (entry_dirs mountpoint es)
      → All P (chown_mountpoint alloc foreign errors mountpoint (dir readable es)).0
        × All P (chown_mountpoint alloc foreign errors mountpoint (dir readable es)).1.owned
        × ((chown_mountpoint alloc foreign errors mountpoint (dir readable es)).1.files_seen ≡ 0)
  unfolding chown_mountpoint
  mountpoint-All foreign errors mountpoint false es s p a =
      (met_dir (errors mountpoint == 0) mountpoint [] p tt, tt, refl)
  mountpoint-All foreign errors mountpoint true es s p a =
      let given = λ (x : Text). foreign x && errors x == 0 in
      let e = enqueue_entries alloc given 5 mountpoint es empty [] in
      let (tasks, met, k, some_k, pos) = entries-Kept given 5 mountpoint es empty [] tt tt a s in
      let (owned, seen) = run_tasks-All errors e.queue.tasks no_cycle tasks tt in
      (
        All-append P (if errors mountpoint == 0 then mountpoint ∷ [] else []) e.lchowned
            (met_dir (errors mountpoint == 0) mountpoint [] p tt) met,
        owned,
        seen,
      )

-- In a mount point that ends before the split depth, with all directories readable, no file gets a new owner: each
-- is a task of its own, which cannot be opened as a directory. What holds of the mount point's path and of the paths
-- of all directories below it holds of every path that is given to the owner, by the thread and by the tasks; and
-- the count of files stays 0. This supposes that no allocation fails.
pub files_seen-chown_owner_thread :
    (P : Text → Type 0) (alloc : ℕ → Bool) (foreign : Text → Bool) (errors : Text → ℕ)
    (owner : Option ℕ) (mountpoint : Text) (readable : Bool) (es : Entries)
    → ((k : ℕ) → alloc k ≡ true)
    → shallow_entries 5 mountpoint es ≡ true
    → P mountpoint
    → All P (entry_dirs mountpoint es)
    → All P (chown_owner_thread alloc foreign errors owner mountpoint (dir readable es)).0
      × All P (chown_owner_thread alloc foreign errors owner mountpoint (dir readable es)).1.owned
      × ((chown_owner_thread alloc foreign errors owner mountpoint (dir readable es)).1.files_seen
          ≡ 0)
unfolding chown_owner_thread
files_seen-chown_owner_thread P alloc foreign errors none mountpoint readable es always s p a =
    (tt, tt, refl)
files_seen-chown_owner_thread P alloc foreign errors (some uid) mountpoint readable es always s p
      a =
    let given = mountpoint-All P alloc always foreign errors mountpoint readable es s p a in
    elim (Bool-cases (uid == 0)) [ inl e ↦ rw e (tt, tt, refl) | inr e ↦ rw e given ]
