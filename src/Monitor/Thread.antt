-- ===== src/Monitor/Thread.antt =====
-- The thread of mbroker/daemon/monitor.c: it checks after each 600 sleeps, and ends when it is stopped.
use mathlib.Core.List.{append-nil, append_assoc}
use aiomb.Prelude.{
  ℕ, zero, suc, ◌+◌, ◌*◌, ◌/◌, ◌≤◌, ◌<◌, List, [], ◌∷◌, ◌++◌, Bool, true, false, leb, ◌≡◌, refl,
  sym, ap, ◌∙◌, arith, Bool-cases, inl, inr,
}
use aiomb.Monitor.{
  Place, loop_test, sleep_test, break_test, ended, Effect, slept, checked, step, monitor_thread,
}

monitor_thread-append :
    (a b : List Bool) (p : Place)
    → monitor_thread (a ++ b) p ≡ (
      (monitor_thread b (monitor_thread a p).0).0,
      (monitor_thread a p).1 ++ (monitor_thread b (monitor_thread a p).0).1,
    )
unfolding monitor_thread
monitor_thread-append [] b p = refl
monitor_thread-append (r ∷ a) b p = rw (monitor_thread-append a b (step r p).0) (
    ap (λ l. ((monitor_thread b (monitor_thread a (step r p).0).0).0, l))
      (sym (append_assoc (step r p).1 _ _)))

monitor_thread-ended : (reads : List Bool) → monitor_thread reads ended ≡ (ended, [])
unfolding monitor_thread
monitor_thread-ended [] = refl
monitor_thread-ended (r ∷ reads) = rw (monitor_thread-ended reads) refl

stops : (p : Place) (later : List Bool) → monitor_thread (false ∷ false ∷ later) p ≡ (ended, [])
unfolding monitor_thread
stops loop_test later = rw (monitor_thread-ended later) refl
stops (sleep_test i) later = rw (monitor_thread-ended later) refl
stops break_test later = rw (monitor_thread-ended later) refl
stops ended later = rw (monitor_thread-ended later) refl

-- Once the flag is cleared and stays so for two reads, the thread has ended: wherever it stood, it starts no other
-- sleep and no other check.
pub monitor_thread_stops :
    (before later : List Bool) (p : Place)
    → monitor_thread (before ++ false ∷ false ∷ later) p ≡ (ended, (monitor_thread before p).1)
monitor_thread_stops before later p =
    monitor_thread-append before (false ∷ false ∷ later) p
    ∙ rw (stops (monitor_thread before p).0 later)
        (ap (λ l. (ended, l)) (append-nil (monitor_thread before p).1))

-- A flag that stays set for n reads.
abbrev pub running_for : ℕ → List Bool
running_for zero = []
running_for (suc n) = true ∷ running_for n

abbrev pub sleeps : List Effect → ℕ
sleeps [] = 0
sleeps (slept ∷ l) = suc (sleeps l)
sleeps (checked ∷ l) = sleeps l

abbrev pub checks : List Effect → ℕ
checks [] = 0
checks (slept ∷ l) = checks l
checks (checked ∷ l) = suc (checks l)

sleeps-append : (a b : List Effect) → sleeps (a ++ b) ≡ sleeps a + sleeps b
sleeps-append [] b = omega arith
sleeps-append (slept ∷ a) b = omega (arith, sleeps-append a b)
sleeps-append (checked ∷ a) b = sleeps-append a b

checks-append : (a b : List Effect) → checks (a ++ b) ≡ checks a + checks b
checks-append [] b = omega arith
checks-append (slept ∷ a) b = checks-append a b
checks-append (checked ∷ a) b = omega (arith, checks-append a b)

-- The reads since the last check, and the sleeps among them.
abbrev reads_since : Place → ℕ
reads_since loop_test = 0
reads_since (sleep_test i) = i + 1
reads_since break_test = 601
reads_since ended = 0

abbrev slept_since : Place → ℕ
slept_since loop_test = 0
slept_since (sleep_test i) = i
slept_since break_test = 600
slept_since ended = 0

abbrev IsRunning : Place → Type 0
IsRunning loop_test = Unit
IsRunning (sleep_test i) = i < 600
IsRunning break_test = Unit
IsRunning ended = ⊥

-- One read of the set flag.
record Advances (p : Place) (r : Place × List Effect) : Type 0 where
  running : IsRunning r.0
  reads : 602 * checks r.1 + reads_since r.0 ≡ reads_since p + 1
  rests : 600 * checks r.1 + slept_since r.0 ≡ slept_since p + sleeps r.1

step-Advances : (p : Place) → IsRunning p → Advances p (step true p)
unfolding step
step-Advances loop_test h = record { running = omega arith; reads = refl; rests = refl }
step-Advances break_test h = record { running = tt; reads = refl; rests = refl }
step-Advances ended h = absurd h
step-Advances (sleep_test i) h = elim (Bool-cases (leb 600 (i + 1))) [
  | inl last ↦ rw last (record { running = tt; reads = ground arith; rests = ground arith })
  | inr more ↦
      rw more (record { running = ground arith; reads = ground arith; rests = ground arith })
]

record Ran (n : ℕ) (p : Place) (r : Place × List Effect) : Type 0 where
  running : IsRunning r.0
  reads : 602 * checks r.1 + reads_since r.0 ≡ reads_since p + n
  rests : 600 * checks r.1 + slept_since r.0 ≡ slept_since p + sleeps r.1

monitor_thread-Ran : (n : ℕ) (p : Place) → IsRunning p → Ran n p (monitor_thread (running_for n) p)
unfolding monitor_thread
monitor_thread-Ran zero p h = record { running = h; reads = omega arith; rests = omega arith }
monitor_thread-Ran (suc n) p h =
    let s = step-Advances p h in
    let first = (step true p).1 in
    let later = (monitor_thread (running_for n) (step true p).0).1 in
    let ih = monitor_thread-Ran n (step true p).0 s.running in
    record {
      running = ih.running;
      reads = omega (arith, checks-append first later, s.reads, ih.reads);
      rests =
          omega (arith, checks-append first later, sleeps-append first later, s.rests, ih.rests);
    }

bounded : (p : Place) → IsRunning p → (reads_since p < 602) × (slept_since p ≤ 600)
bounded loop_test h = omega arith
bounded (sleep_test i) h = omega arith
bounded break_test h = omega arith
bounded ended h = absurd h

-- While the flag stays set for n reads, the thread makes a check for every 602 of them, and between two checks it
-- sleeps 600 times: n / 602 checks in all, and 600 sleeps for each and at most 600 more.
pub monitor_thread-checks :
    (n : ℕ)
    → (checks (monitor_thread (running_for n) loop_test).1 ≡ n / 602)
      × (600 * (n / 602) ≤ sleeps (monitor_thread (running_for n) loop_test).1)
      × (sleeps (monitor_thread (running_for n) loop_test).1 ≤ 600 * (n / 602) + 600)
monitor_thread-checks n =
    let r = monitor_thread-Ran n loop_test tt in
    let b = bounded (monitor_thread (running_for n) loop_test).0 r.running in
    omega (arith, r.reads, r.rests, b.0, b.1)
