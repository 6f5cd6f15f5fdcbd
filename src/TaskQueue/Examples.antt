-- ===== src/TaskQueue/Examples.antt =====
-- A queue of three tasks and its workers.
use aiomb.Prelude.{
  ◌+◌, ◌||◌, not, ◌==◌, ℕ, ◌≤◌, ◌<◌, ◌≡◌, refl, [], ◌∷◌, true, some, length, arith, if◌then◌else◌,
  ltb,
}
use aiomb.TaskQueue.{Queue, task_queue_push, task_queue_next, push_all}
use aiomb.TaskQueue.Push.{InArray, task_queue_push_lem}
use aiomb.TaskQueue.Termination.{workers, steps, workers_terminate}
use aiomb.TaskQueue.Claims.{
  Step, running, done, Pool, claim, stop, Run, here, next, start, range, claims_complete, update,
}

abbrev small : Queue ℕ
small = record { tasks = 7 ∷ 8 ∷ []; capacity = 2; next = 0 }

-- A push onto a full array.
task_queue_push_lem_example :
    InArray (task_queue_push 2 (λ _. true) 9 small).0
    × ((task_queue_push 2 (λ _. true) 9 small).0.tasks
        ≡ (if (task_queue_push 2 (λ _. true) 9 small).1 then 7 ∷ 8 ∷ 9 ∷ [] else 7 ∷ 8 ∷ []))
    × ((task_queue_push 2 (λ _. true) 9 small).1
        ≡ (if ltb (length small.tasks) small.capacity then true else true))
    × ((task_queue_push 2 (λ _. true) 9 small).0.capacity ≡ (
        if ltb (length small.tasks) small.capacity || not (task_queue_push 2 (λ _. true) 9 small).1
        then small.capacity
        else if small.capacity == 0
        then 2
        else small.capacity + small.capacity))
    × ((task_queue_push 2 (λ _. true) 9 small).0.next ≡ small.next)
task_queue_push_lem_example = task_queue_push_lem 2 (λ _. true) 9 small (omega arith) (omega arith)

abbrev pushed : Queue ℕ
pushed = record { tasks = 7 ∷ 8 ∷ 9 ∷ 5 ∷ []; capacity = 4; next = 0 }

pushes : push_all 2 (λ _. true) (9 ∷ 5 ∷ []) small ≡ some pushed
unfolding push_all task_queue_push
pushes = refl

-- Two workers on two tasks: worker 1 claims both, then worker 0 is told to stop.
abbrev taken : ℕ → Queue ℕ
taken n = record { tasks = 7 ∷ 8 ∷ []; capacity = 2; next = n }

first_claim :
    Run (start small) (record { queue = taken 1; status = λ _. running; claims = (1, 0) ∷ [] })
unfolding task_queue_next
first_claim = next here (claim 1 0 (taken 1) refl refl)

second_claim :
    Run
      (start small)
      (record { queue = taken 2; status = λ _. running; claims = (1, 0) ∷ (1, 1) ∷ [] })
unfolding task_queue_next
second_claim = next first_claim (claim 1 1 (taken 2) refl refl)

abbrev stopped : Pool ℕ
stopped = record {
  queue = taken 3;
  status = update (λ _. running) 0 done;
  claims = (1, 0) ∷ (1, 1) ∷ [];
}

both_claimed : Run (start small) stopped
unfolding task_queue_next
both_claimed = next second_claim (stop 0 (taken 3) refl refl)

claims_complete_example : 0 ∷ 1 ∷ [] ≡ range (length small.tasks)
claims_complete_example = claims_complete small stopped 0 refl both_claimed refl

-- Two workers, of which one has claimed the first task.
abbrev begun : Pool ℕ
begun = record {
  queue = taken 1;
  status = λ w. if ltb w 2 then running else done;
  claims = (1, 0) ∷ [];
}

begins : Run (workers 2 small) begun
unfolding task_queue_next
begins = next here (claim 1 0 (taken 1) refl refl)

workers_terminate_example :
    (steps 2 begins ≤ 4)
    × (steps 2 begins < 4 → (r : Pool ℕ) × Step begun r)
    × (steps 2 begins ≡ 4 → (w : ℕ) → w < 2 → begun.status w ≡ done)
workers_terminate_example = workers_terminate 2 small begun begins refl (omega arith)
