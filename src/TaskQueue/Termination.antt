-- ===== src/TaskQueue/Termination.antt =====
-- The workers of promote.c, ownership.c and post_mount.c all leave their loops.
use aiomb.Prelude.{
  ℕ, zero, suc, ◌+◌, ◌-◌, ◌≤◌, ◌<◌, ◌≡◌, refl, List, [], true, false, length, ltb, ◌==◌,
  if◌then◌else◌, arith, ap, sym, ◌∙◌, ◌⊎◌, inl, inr, Bool-cases, Option-cases,
}
use aiomb.TaskQueue.{Queue, task_queue_next}
use aiomb.TaskQueue.Claims.{
  Status, running, done, Pool, update, Step, claim, stop, Run, here, next, next_some, next_none,
}

Status-cases : (x : Status) → (x ≡ running) ⊎ (x ≡ done)
Status-cases running = inl refl
Status-cases done = inr refl

abbrev weight : Status → ℕ
weight running = 1
weight done = 0

-- How many of the first n workers run.
abbrev active : ℕ → (ℕ → Status) → ℕ
active zero s = 0
active (suc n) s = weight (s n) + active n s

update-other : (s : ℕ → Status) (w v : ℕ) (x : Status) → (v == w) ≡ false → update s w x v ≡ s v
update-other s w v x e = rw e refl

update-same : (s : ℕ → Status) (w v : ℕ) (x : Status) → (v == w) ≡ true → update s w x v ≡ x
update-same s w v x e = rw e refl

active-above : (n : ℕ) (s : ℕ → Status) (w : ℕ) → n ≤ w → active n (update s w done) ≡ active n s
active-above zero s w le = refl
active-above (suc n) s w le =
    let other : (n == w) ≡ false = ground arith in
    rw (update-other s w n done other)
      (ap (λ k. weight (s n) + k) (active-above n s w (omega arith)))

active-update :
    (n : ℕ) (s : ℕ → Status) (w : ℕ)
    → w < n
    → s w ≡ running
    → active n s ≡ suc (active n (update s w done))
active-update zero s w lt e = ground arith
active-update (suc n) s w lt e = elim (Bool-cases (n == w)) [
  | inl is ↦
      let same : n ≡ w = ground arith in
      rw (update-same s w n done is, active-above n s w (omega arith), ap s same ∙ e) (omega arith)
  | inr other ↦
      let lt' : w < n = ground arith in
      rw (update-other s w n done other) (omega (arith, active-update n s w lt' e))
]

active-zero : (n : ℕ) (s : ℕ → Status) (w : ℕ) → active n s ≡ 0 → w < n → s w ≡ done
active-zero zero s w e lt = ground arith
active-zero (suc n) s w e lt = elim (Bool-cases (n == w)) [
  | inl is ↦
      let same : n ≡ w = ground arith in
      elim (Status-cases (s n)) [
        | inl r ↦ let wrong : 1 + active n s ≡ 0 = (rw r at e) in absurd (omega arith)
        | inr d ↦ ap s (sym same) ∙ d
      ]
  | inr other ↦ active-zero n s w (omega arith) (ground arith)
]

-- A worker that runs, if one does.
a_worker : (n : ℕ) (s : ℕ → Status) → 0 < active n s → (w : ℕ) × (s w ≡ running)
a_worker zero s h = ground arith
a_worker (suc n) s h = elim (Status-cases (s n)) [
  | inl r ↦ (n, r)
  | inr d ↦ let below : 0 < 0 + active n s = (rw d at h) in a_worker n s (omega arith)
]

all_active : (n m : ℕ) → m ≤ n → active m (λ w. if ltb w n then running else done) ≡ m
all_active n zero le = refl
all_active n (suc m) le =
    let here' : ltb m n ≡ true = ground arith in
    rw here' (omega (arith, all_active n m (omega arith)))

module _ {ℓ} {A : Type ℓ} (n : ℕ) where
  -- n workers on a queue of which nothing has been claimed
  abbrev pub workers : Queue A → Pool A
  workers q = record { queue = q; status = λ w. if ltb w n then running else done; claims = [] }

  record Live (tasks : List A) (p : Pool A) : Type ℓ where
    same : p.queue.tasks ≡ tasks
    started : (w : ℕ) → p.status w ≡ running → w < n
    finished : (w : ℕ) → w < n → p.status w ≡ done → length tasks ≤ p.queue.next

  -- The steps that are left.
  abbrev ahead : List A → Pool A → ℕ
  ahead tasks p = (length tasks - p.queue.next) + active n p.status

  workers-Live : (q : Queue A) → Live q.tasks (workers q)
  workers-Live q = record {
    same = refl;
    started = λ w r. ground arith;
    finished = λ w lt d. ground arith;
  }

  Step-Live : {tasks : List A} {p r : Pool A} → Step p r → Live tasks p → Live tasks r
  Step-Live {tasks} {p} (claim w i q run e) v =
      let (t, m, j, lt) = next_some p.queue q i e in
      record {
        same = t ∙ v.same;
        started = v.started;
        finished = λ u l d. omega (arith, v.finished u l d, m);
      }
  Step-Live {tasks} {p} (stop w q run e) v =
      let (t, m, le) = next_none p.queue q e in
      let le' : length tasks ≤ p.queue.next = rw v.same at le in
      record {
        same = t ∙ v.same;
        started = λ u r. elim (Bool-cases (u == w)) [
          | inl is ↦
              let wrong : done ≡ running = sym (update-same p.status w u done is) ∙ r in
              ground arith
          | inr other ↦ v.started u (sym (update-other p.status w u done other) ∙ r)
        ];
        finished = λ u l d. omega (arith, m);
      }

  Step-ahead :
      {tasks : List A} {p r : Pool A}
      → Step p r
      → Live tasks p
      → ahead tasks p ≡ suc (ahead tasks r)
  Step-ahead {tasks} {p} (claim w i q run e) v =
      let (t, m, j, lt) = next_some p.queue q i e in
      let lt' : p.queue.next < length tasks = rw v.same at lt in rw m (omega arith)
  Step-ahead {tasks} {p} (stop w q run e) v =
      let (t, m, le) = next_none p.queue q e in
      let le' : length tasks ≤ p.queue.next = rw v.same at le in
      rw m (omega (arith, active-update n p.status w (v.started w run) run))

  abbrev pub steps : {p r : Pool A} → Run p r → ℕ
  steps here = 0
  steps (next run s) = suc (steps run)

  Run-Live : (q : Queue A) {r : Pool A} → Run (workers q) r → Live q.tasks r
  Run-Live q here = workers-Live q
  Run-Live q (next run s) = Step-Live s (Run-Live q run)

  steps-ahead :
      (q : Queue A) {r : Pool A} (run : Run (workers q) r)
      → q.next ≡ 0
      → steps run + ahead q.tasks r ≡ length q.tasks + n
  steps-ahead q here e = rw e (omega (arith, all_active n n (omega arith)))
  steps-ahead q (next run s) e = omega (arith, steps-ahead q run e, Step-ahead s (Run-Live q run))

  a_step : (p : Pool A) (w : ℕ) → p.status w ≡ running → (r : Pool A) × Step p r
  a_step p w e = elim (Option-cases (task_queue_next p.queue).1) [
    | inl none' ↦
        (_, stop w (task_queue_next p.queue).0 e (ap (λ o. ((task_queue_next p.queue).0, o)) none'))
    | inr (i, some') ↦ (
      _,
      claim w i (task_queue_next p.queue).0 e (ap (λ o. ((task_queue_next p.queue).0, o)) some'),
    )
  ]

  -- On a queue of which nothing has been claimed, and with one worker at least, every interleaving of the workers
  -- comes to an end, and always after one step for each task and one for each worker: until then some worker can
  -- go on, and then all of them have left their loops.
  pub workers_terminate :
      (q : Queue A) (p : Pool A) (run : Run (workers q) p)
      → q.next ≡ 0
      → 0 < n
      → (steps run ≤ length q.tasks + n)
        × (steps run < length q.tasks + n → (r : Pool A) × Step p r)
        × (steps run ≡ length q.tasks + n → (w : ℕ) → w < n → p.status w ≡ done)
  workers_terminate q p run e some_worker =
      let v = Run-Live q run in
      let total = steps-ahead q run e in
      (
        omega arith,
        λ less. elim (Bool-cases (ltb 0 (active n p.status))) [
          | inl more ↦ let (w, r) = a_worker n p.status (ground arith) in a_step p w r
          | inr none_left ↦
              let idle : active n p.status ≡ 0 = ground arith in
              let all = v.finished 0 some_worker (active-zero n p.status 0 idle some_worker) in
              absurd (omega arith)
        ],
        λ full w lt. active-zero n p.status w (omega arith) lt,
      )
