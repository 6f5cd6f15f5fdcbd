-- ===== src/TaskQueue.antt =====
-- mbroker/include/task_queue.h, and its two copies in mbroker/daemon/post_mount.c: an array that
-- doubles, from which worker threads claim the next index under a lock. Indices do not overflow.
pub mod Push
pub mod Claims
mod Termination
mod Examples
use aiomb.Prelude.{
  ℕ, zero, suc, ◌+◌, ◌*◌, List, [], ◌∷◌, ◌++◌, Bool, true, false, ◌||◌, Option, none, some, length,
  leb, ltb, ◌==◌, if◌then◌else◌,
}

-- struct task_queue; `total` is the length of `tasks`.
pub record Queue {ℓ} (A : Type ℓ) : Type ℓ where
  pub tasks : List A
  pub capacity : ℕ
  pub next : ℕ

-- new_cap of a push: the first capacity, or twice the last one
abbrev pub grown : ℕ → ℕ → ℕ
grown initial capacity = if capacity == 0 then initial else capacity * 2

module _ {ℓ} {A : Type ℓ} where
  -- task_queue_init
  abbrev pub empty : Queue A
  empty = record { tasks = []; capacity = 0; next = 0 }

  -- task_queue_push with the first capacity of the queue: whether it returned 0. `alloc` says for each
  -- number of entries whether `realloc` finds room for them.
  unfoldable pub task_queue_push : ℕ → (ℕ → Bool) → A → Queue A → Queue A × Bool
  task_queue_push initial alloc a q =
      let cap' = grown initial q.capacity in
      if ltb (length q.tasks) q.capacity
      then (record q { tasks = q.tasks ++ a ∷ [] }, true)
      else if alloc cap'
      then (record { tasks = q.tasks ++ a ∷ []; capacity = cap'; next = q.next }, true)
      else (q, false)

  -- A loop of pushes that stops at the first failure, as prepare_whiteout_dirs fills its create queue.
  unfoldable pub push_all : ℕ → (ℕ → Bool) → List A → Queue A → Option (Queue A)
  push_all initial alloc [] q = some q
  push_all initial alloc (a ∷ as') q =
      let (q', done) = task_queue_push initial alloc a q in
      let rest = push_all initial alloc as' q' in if done then rest else none

  -- task_queue_next: the index, or `none` for -1
  unfoldable pub task_queue_next : Queue A → Queue A × Option ℕ
  task_queue_next q =
      (record q { next = q.next + 1 }, if ltb q.next (length q.tasks) then some q.next else none)

-- TASK_QUEUE_INITIAL, and the first capacities of the scan queue and the create queue
abbrev pub task_queue_initial : ℕ
task_queue_initial = 4096

abbrev pub scan_queue_initial : ℕ
scan_queue_initial = 256

abbrev pub create_queue_initial : ℕ
create_queue_initial = 1024
