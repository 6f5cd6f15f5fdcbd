-- ===== src/MountInfo/Listing.antt =====
-- mountinfo_describe_all, mountinfo_cleanup_all, mountinfo_snapshot_mountpoints and
-- mountinfo_tracked_count of mbroker/daemon/mountinfo.c.
use aiomb.Prelude.{
  ℕ, zero, suc, ◌+◌, ◌-◌, ◌<◌, ◌≤◌, ◌≡◌, refl, [], ◌∷◌, ◌++◌, ◌&&◌, Bool, List, Option, none, some,
  Text, length, text_eq, text_eq_sound, arith, if◌then◌else◌, inl, inr, Bool-cases, ap, ◌∙◌, map,
  select, codes, leb, length-append, lt→ltb,
}
use mathlib.Core.List.{append_assoc, append-nil}
use aiomb.CString.{fit, concat}
use aiomb.CString.Laws.{fit-of_fits, length-fit}
use aiomb.MountInfo.{
  Table, cleared, max_tracked, Report, write_line, describe_line, describe_loop, no_report,
  mountinfo_describe_all, cleanup_loop, mountinfo_cleanup_all, mountinfo_tracked_count,
}
use aiomb.MountInfo.Slots.{view, tracked_count-le}

-- What the loop leaves of the table.
unfoldable pub prune : (Text → Bool) → Table → Table
prune mounted [] = []
prune mounted (s ∷ t) =
    (if s.active && mounted s.mountpoint then s else cleared s) ∷ prune mounted t

unfoldable pub live : (Text → Bool) → Table → List Text
live mounted [] = []
live mounted (s ∷ t) =
    let rest = live mounted t in
    if s.active && mounted s.mountpoint then describe_line s ∷ rest else rest

describe_loop-prune :
    (mounted : Text → Bool) (n : ℕ) (t : Table) (r : Report)
    → (describe_loop mounted n t r).0 ≡ prune mounted t
unfolding describe_loop prune
describe_loop-prune mounted n [] r = refl
describe_loop-prune mounted n (s ∷ t) r =
    ap (λ (u : Table). (if s.active && mounted s.mountpoint then s else cleared s) ∷ u)
      (describe_loop-prune mounted n t
        (if s.active && mounted s.mountpoint then write_line n (describe_line s) r else r))

pub describe_all-prune :
    (mounted : Text → Bool) (n : ℕ) (t : Table)
    → (mountinfo_describe_all mounted (suc n) t).0 ≡ prune mounted t
unfolding mountinfo_describe_all
describe_all-prune mounted n t = describe_loop-prune mounted (suc n) t no_report

pub view-prune :
    (mounted : Text → Bool) (k : Text) (t : Table)
    → view (prune mounted t) k ≡ (if mounted k then view t k else none)
unfolding view prune
view-prune mounted k [] = ground arith
view-prune mounted k (s ∷ t) = elim (Bool-cases (text_eq s.mountpoint k)) [
  | inl e ↦
      rw (← text_eq_sound s.mountpoint k e) (ground (arith, view-prune mounted s.mountpoint t))
  | inr e ↦ ground (arith, view-prune mounted k t)
]

-- The list call drops exactly the tracked mounts that are no longer in /proc/self/mountinfo.
pub view-mountinfo_describe_all :
    (mounted : Text → Bool) (n : ℕ) (t : Table) (k : Text)
    → view (mountinfo_describe_all mounted (suc n) t).0 k ≡ (if mounted k then view t k else none)
view-mountinfo_describe_all mounted n t k =
    rw (describe_all-prune mounted n t) (view-prune mounted k t)

abbrev written : Report → Text → ℕ → Report
written r text n = record { out = r.out ++ text; buf = r.out ++ text; count = r.count + n }

write_line-fits :
    (n : ℕ) (line : Text) (r : Report)
    → length r.out + length line < n
    → write_line n line r ≡ written r line 1
unfolding write_line
write_line-fits n line r h = rw (lt→ltb _ _ h, fit-of_fits (n - length r.out) line (omega arith))

written-written :
    (r : Report) (s t : Text) (n : ℕ) → written (written r s 1) t n ≡ written r (s ++ t) (suc n)
written-written r s t n = ground (arith, append_assoc r.out s t)

describe_loop-text :
    (mounted : Text → Bool) (n : ℕ) (t : Table) (r : Report)
    → length (r.out ++ concat (live mounted t)) < n
    → r.buf ≡ r.out
    → (describe_loop mounted n t r).1
      ≡ written r (concat (live mounted t)) (length (live mounted t))
unfolding describe_loop live
describe_loop-text mounted n [] r h e = ground (arith, append-nil r.out)
describe_loop-text mounted n (s ∷ t) r h e = elim (Bool-cases (s.active && mounted s.mountpoint)) [
  | inr f ↦ rw f (describe_loop-text mounted n t r (rw f at h) e)
  | inl f ↦
      let line = describe_line s in
      let rest = concat (live mounted t) in
      let h' : length (r.out ++ (line ++ rest)) < n = rw f at h in
      rw
        (
          f,
          write_line-fits n line r
              (omega (arith, length-append r.out (line ++ rest), length-append line rest)),
        )
        (describe_loop-text mounted n t (written r line 1) (rw (append_assoc r.out line rest) h')
            refl
          ∙ written-written r line rest (length (live mounted t)))
]

-- When the lines of the tracked mounts that are still mounted fit a buffer of more than 20 bytes, the
-- list call fills it with all of them in slot order, or says that there is none.
pub mountinfo_describe_all-fits :
    (mounted : Text → Bool) (n : ℕ) (t : Table)
    → 19 < n
    → length (concat (live mounted t)) < suc n
    → (mountinfo_describe_all mounted (suc n) t).1
      ≡ some (
          if leb (length (live mounted t)) 0
          then codes "No active sandboxes" ++ 10 ∷ []
          else concat (live mounted t))
unfolding mountinfo_describe_all
mountinfo_describe_all-fits mounted n t big h =
    rw (describe_loop-text mounted (suc n) t no_report h refl)
      (ground (arith, fit-of_fits (suc n) (codes "No active sandboxes" ++ 10 ∷ []) (omega arith)))

abbrev IsWithin : ℕ → Report → Type 0
IsWithin n r = (length r.out < n) × (length r.buf < n)

write_line-IsWithin :
    (n : ℕ) (line : Text) (r : Report) → IsWithin n r → IsWithin n (write_line n line r)
unfolding write_line
write_line-IsWithin n line r h = (
  ground (arith, length-append r.out line),
  omega (
    arith,
    h.0,
    length-append r.out (fit (n - length r.out) line),
    length-fit (n - length r.out) line (omega (arith, h.0)),
  ),
)

describe_loop-IsWithin :
    (mounted : Text → Bool) (n : ℕ) (t : Table) (r : Report)
    → IsWithin n r
    → IsWithin n (describe_loop mounted n t r).1
unfolding describe_loop
describe_loop-IsWithin mounted n [] r h = h
describe_loop-IsWithin mounted n (s ∷ t) r h =
    elim (Bool-cases (s.active && mounted s.mountpoint)) [
      | inr f ↦ rw f (describe_loop-IsWithin mounted n t r h)
      | inl f ↦
          rw f (describe_loop-IsWithin mounted n t _ (write_line-IsWithin n (describe_line s) r h))
    ]

abbrev pub size_of : Option Text → ℕ
size_of none = 0
size_of (some s) = length s

-- The text in the buffer, with its NUL, never passes the size of the buffer.
pub mountinfo_describe_all_bounded :
    (mounted : Text → Bool) (n : ℕ) (t : Table)
    → size_of (mountinfo_describe_all mounted (suc n) t).1 < suc n
unfolding mountinfo_describe_all
mountinfo_describe_all_bounded mounted n t =
    let w : IsWithin (suc n) (describe_loop mounted (suc n) t no_report).1 =
      describe_loop-IsWithin mounted (suc n) t no_report (omega arith) in
    ground (arith, w.1, length-fit (suc n) (codes "No active sandboxes" ++ 10 ∷ []) (omega arith))

cleanup_loop_lem :
    (n : ℕ) (t : Table)
    → mountinfo_tracked_count t ≤ n
    → (mountinfo_tracked_count (cleanup_loop n t).0 ≡ 0)
      × ((cleanup_loop n t).1 ≡ map (λ s. s.mountpoint) (select (λ s. s.active) t))
unfolding cleanup_loop mountinfo_tracked_count select
cleanup_loop_lem zero [] h = (refl, refl)
cleanup_loop_lem zero (s ∷ t) h = ground (arith, cleanup_loop_lem zero t)
cleanup_loop_lem (suc n) [] h = (refl, refl)
cleanup_loop_lem (suc n) (s ∷ t) h =
    ground (arith, cleanup_loop_lem n t, cleanup_loop_lem (suc n) t)

-- From a table of at most 256 slots, the shutdown call detaches every active slot's mount point, in slot
-- order, and leaves no slot active.
pub mountinfo_cleanup_all_lem :
    (t : Table)
    → length t ≤ max_tracked
    → (mountinfo_tracked_count (mountinfo_cleanup_all t).0 ≡ 0)
      × ((mountinfo_cleanup_all t).1 ≡ map (λ s. s.mountpoint) (select (λ s. s.active) t))
unfolding mountinfo_cleanup_all
mountinfo_cleanup_all_lem t h = cleanup_loop_lem max_tracked t (omega (arith, tracked_count-le t))
