-- ===== src/TaskQueue/Push.antt =====
-- The array of task_queue.h never overflows its capacity, and keeps the order of the pushes.
use aiomb.Prelude.{
  ◌+◌, ◌*◌, ◌||◌, not, ◌==◌, sym, ℕ, ◌≤◌, ◌<◌, ◌≡◌, List, [], ◌∷◌, ◌++◌, Bool, true, some, length,
  ltb, if◌then◌else◌, arith, length-append, inl, inr, Bool-cases, ◌∙◌,
}
use mathlib.Core.List.{append-nil, append_assoc}
use aiomb.TaskQueue.{Queue, task_queue_push, push_all}

module _ {ℓ} {A : Type ℓ} where
  -- The entries are within the array.
  abbrev pub InArray : Queue A → Type 0
  InArray q = length q.tasks ≤ q.capacity

  -- A push keeps the entries within the array and claims nothing. It appends its task, or fails with the tasks and
  -- the capacity as they were, which happens exactly when the array is full and no memory is found for the larger
  -- one. The recorded capacity is a new one only if the array was full: the first capacity for an array of none, and
  -- else twice the old one, for which memory was found.
  pub task_queue_push_lem :
      (initial : ℕ) (alloc : ℕ → Bool) (a : A) (q : Queue A)
      → 0 < initial
      → InArray q
      → InArray (task_queue_push initial alloc a q).0
        × ((task_queue_push initial alloc a q).0.tasks
            ≡ (if (task_queue_push initial alloc a q).1 then q.tasks ++ a ∷ [] else q.tasks))
        × ((task_queue_push initial alloc a q).1 ≡ (
            if ltb (length q.tasks) q.capacity
            then true
            else alloc (if q.capacity == 0 then initial else q.capacity + q.capacity)))
        × ((task_queue_push initial alloc a q).0.capacity ≡ (
            if ltb (length q.tasks) q.capacity || not (task_queue_push initial alloc a q).1
            then q.capacity
            else if q.capacity == 0
            then initial
            else q.capacity + q.capacity))
        × ((task_queue_push initial alloc a q).0.next ≡ q.next)
  unfolding task_queue_push
  task_queue_push_lem initial alloc a q pos h =
      let twice : q.capacity * 2 ≡ q.capacity + q.capacity = omega arith in
      rw (sym twice) (ground (arith, length-append q.tasks (a ∷ [])))

  next-task_queue_push :
      (initial : ℕ) (alloc : ℕ → Bool) (a : A) (q : Queue A)
      → (task_queue_push initial alloc a q).0.next ≡ q.next
  unfolding task_queue_push
  next-task_queue_push initial alloc a q = ground arith

  -- When every push of a loop succeeds, the array holds the old tasks and then the new ones in order,
  -- and nothing has been claimed by it.
  pub push_all_lem :
      (initial : ℕ) (alloc : ℕ → Bool) (as' : List A) (q r : Queue A)
      → 0 < initial
      → InArray q
      → push_all initial alloc as' q ≡ some r
      → (r.tasks ≡ q.tasks ++ as') × (r.next ≡ q.next) × InArray r
  unfolding push_all
  push_all_lem initial alloc [] q r pos h e = ground (arith, append-nil q.tasks)
  push_all_lem initial alloc (a ∷ as') q r pos h e =
      let p = task_queue_push initial alloc a q in
      let v = task_queue_push_lem initial alloc a q pos h in
      elim (Bool-cases p.1) [
        | inr fails ↦ ground arith
        | inl done ↦
            let (t, n, w) = push_all_lem initial alloc as' p.0 r pos v.0 (rw done at e) in
            let grew : p.0.tasks ≡ q.tasks ++ a ∷ [] = rw done at v.1 in
            (
              t ∙ rw grew (append_assoc q.tasks (a ∷ []) as'),
              n ∙ next-task_queue_push initial alloc a q,
              w,
            )
      ]
