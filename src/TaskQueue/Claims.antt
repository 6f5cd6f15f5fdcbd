-- ===== src/TaskQueue/Claims.antt =====
-- The workers of promote.c, ownership.c and post_mount.c: each claims an index until it is given -1.
-- A claim is one step, since task_queue_next holds the lock; the steps of the workers interleave freely.
use aiomb.Prelude.{
  ℕ, zero, suc, ◌+◌, ◌≤◌, ◌<◌, ◌≡◌, refl, List, [], ◌∷◌, ◌++◌, none, some, length, ltb, ◌==◌,
  if◌then◌else◌, arith, ap, map, ◌∙◌,
}
use mathlib.Core.List.{map-append}
use aiomb.TaskQueue.{Queue, task_queue_next}

-- A worker runs, or has left its loop.
pub data Status : Type 0 where
  running done : Status

-- The queue, the status of each worker, and the claims so far with their workers, oldest first.
pub record Pool {ℓ} (A : Type ℓ) : Type ℓ where
  pub queue : Queue A
  pub status : ℕ → Status
  pub claims : List (ℕ × ℕ)

abbrev pub update : (ℕ → Status) → ℕ → Status → ℕ → Status
update f w s v = if v == w then s else f v

-- The names 0, 1, … below a number.
pub range : ℕ → List ℕ
range zero = []
range (suc n) = range n ++ n ∷ []

module _ {ℓ} {A : Type ℓ} where
  -- One pass of the loop of a worker.
  pub data Step (p : Pool A) : Pool A → Type ℓ where
    claim :
        (w i : ℕ) (q : Queue A)
        → p.status w ≡ running
        → task_queue_next p.queue ≡ (q, some i)
        → Step p (record { queue = q; status = p.status; claims = p.claims ++ (w, i) ∷ [] })
    stop :
        (w : ℕ) (q : Queue A)
        → p.status w ≡ running
        → task_queue_next p.queue ≡ (q, none)
        → Step p (record { queue = q; status = update p.status w done; claims = p.claims })

  pub data Run (p : Pool A) : Pool A → Type ℓ where
    here : Run p p
    next : {q r : Pool A} → Run p q → Step q r → Run p r

  -- The workers are started on a queue of which nothing has been claimed.
  abbrev pub start : Queue A → Pool A
  start q = record { queue = q; status = λ _. running; claims = [] }

  pub next_some :
      (q q' : Queue A) (i : ℕ)
      → task_queue_next q ≡ (q', some i)
      → (q'.tasks ≡ q.tasks) × (q'.next ≡ q.next + 1) × (i ≡ q.next) × (q.next < length q.tasks)
  unfolding task_queue_next
  next_some q q' i h = ground arith

  pub next_none :
      (q q' : Queue A)
      → task_queue_next q ≡ (q', none)
      → (q'.tasks ≡ q.tasks) × (q'.next ≡ q.next + 1) × (length q.tasks ≤ q.next)
  unfolding task_queue_next
  next_none q q' h = ground arith

-- How many indices have been given out.
abbrev given : ℕ → ℕ → ℕ
given m total = if ltb m total then m else total

given_below : (i n : ℕ) → i < n → (given i n ≡ i) × (given (i + 1) n ≡ suc i)
given_below i n h = ground arith

given_all : (i n : ℕ) → n ≤ i → given i n ≡ n
given_all i n h = ground arith

given-zero : (n : ℕ) → given 0 n ≡ 0
given-zero n = ground arith

claimed_next :
    (cs : List (ℕ × ℕ)) (w i n : ℕ)
    → i < n
    → map (λ c. c.1) cs ≡ range (given i n)
    → map (λ c. c.1) (cs ++ (w, i) ∷ []) ≡ range (given (i + 1) n)
unfolding range
claimed_next cs w i n lt e =
    map-append (λ (c : ℕ × ℕ). c.1) cs ((w, i) ∷ [])
    ∙ rw ((given_below i n lt).1, e, (given_below i n lt).0)

module _ {ℓ} {A : Type ℓ} where
  record Inv (tasks : List A) (p : Pool A) : Type ℓ where
    same : p.queue.tasks ≡ tasks
    claimed : map (λ c. c.1) p.claims ≡ range (given p.queue.next (length tasks))
    finished : (w : ℕ) → p.status w ≡ done → length tasks ≤ p.queue.next

  start-Inv : (q : Queue A) → q.next ≡ 0 → Inv q.tasks (start q)
  unfolding range
  start-Inv q e = record {
    same = refl;
    claimed = rw (e, given-zero (length q.tasks));
    finished = λ w h. cc;
  }

  Step-Inv : {tasks : List A} {p q : Pool A} → Step p q → Inv tasks p → Inv tasks q
  Step-Inv {tasks} {p} (claim w i q r e) v =
      let (t, n, j, lt) = next_some p.queue q i e in
      let lt' : p.queue.next < length tasks = rw v.same at lt in
      record {
        same = t ∙ v.same;
        claimed = rw (n, j) (claimed_next p.claims w p.queue.next (length tasks) lt' v.claimed);
        finished = λ u h. omega (arith, v.finished u h, n);
      }
  Step-Inv {tasks} {p} (stop w q r e) v =
      let (t, n, le) = next_none p.queue q e in
      let le' : length tasks ≤ p.queue.next = rw v.same at le in
      let before = given_all p.queue.next (length tasks) le' in
      let after = given_all (p.queue.next + 1) (length tasks) (omega arith) in
      record {
        same = t ∙ v.same;
        claimed = rw (n, after) (v.claimed ∙ rw before);
        finished = λ u h. omega (arith, n);
      }

  Run-Inv : {tasks : List A} {p q : Pool A} → Run p q → Inv tasks p → Inv tasks q
  Run-Inv here v = v
  Run-Inv (next r s) v = Step-Inv s (Run-Inv r v)

  -- However the workers' claims interleave, no task is given to two of them, and once any worker has left
  -- its loop all tasks have been given out: the claimed indices are 0, 1, … up to the number of tasks.
  pub claims_complete :
      (q : Queue A) (p : Pool A) (w : ℕ)
      → q.next ≡ 0
      → Run (start q) p
      → p.status w ≡ done
      → map (λ c. c.1) p.claims ≡ range (length q.tasks)
  claims_complete q p w zero_next run h =
      let v = Run-Inv run (start-Inv q zero_next) in
      v.claimed ∙ ap range (given_all p.queue.next (length q.tasks) (v.finished w h))

  -- At every moment the claims are the first indices in order, each given to one worker.
  pub claims_in_order :
      (q : Queue A) (p : Pool A)
      → q.next ≡ 0
      → Run (start q) p
      → map (λ c. c.1) p.claims ≡ range (given p.queue.next (length q.tasks))
  claims_in_order q p zero_next run = (Run-Inv run (start-Inv q zero_next)).claimed
