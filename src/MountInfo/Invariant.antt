-- ===== src/MountInfo/Invariant.antt =====
-- Every call of mbroker/daemon/mountinfo.c keeps the table well formed.
use aiomb.Prelude.{
  ℕ, zero, suc, ◌<◌, ◌≡◌, refl, [], ◌∷◌, ◌++◌, true, false, not, Bool, List, none, some, Text,
  length, All, arith, inl, inr, Option-cases, length-append, All-append, Bool-cases, leb, ap,
  if◌then◌else◌,
}
use aiomb.MountInfo.{
  Table, Meta, refreshed, filled, hits, replace_first, cleared, max_tracked, mountinfo_track,
  mountinfo_untrack, mountinfo_describe_all, cleanup_loop, mountinfo_cleanup_all,
}
use aiomb.MountInfo.Slots.{view, Distinct, refresh_none}
use aiomb.MountInfo.Listing.{prune, describe_all-prune, view-prune}
use aiomb.MountInfo.Bounds.{
  Fits, IsValid, refreshed-Fits, filled-Fits, length-replace_first, replace_first-Fits,
  refresh-Distinct, reuse-Distinct, extend-Distinct, clear-Distinct,
}

fresh_slot-IsValid :
    (mp : Text) (m : Meta) (t : Table)
    → length mp < 2048
    → IsValid t
    → view t mp ≡ none
    → IsValid
        (elim (replace_first (λ s. not s.active) (λ s. filled mp m) t) as (λ _. Table × Bool) [
          | some u ↦ (u, true)
          | none ↦ if leb max_tracked (length t) then (t, false) else (t ++ filled mp m ∷ [], true)
        ]).0
fresh_slot-IsValid mp m t lt v n =
    elim (Option-cases (replace_first (λ s. not s.active) (λ s. filled mp m) t)) [
      | inr (u, g) ↦ rw g (record {
        size = omega (arith, v.size, length-replace_first _ _ t u g);
        distinct = reuse-Distinct mp m t u lt n v.distinct g;
        fits = replace_first-Fits _ _ (λ s h. filled-Fits mp m) t u v.fits g;
      })
      | inl g ↦ elim (Bool-cases (leb max_tracked (length t))) [
        | inl full ↦ rw (g, full) v
        | inr room ↦
            rw (g, room)
              (record {
                size = ground (arith, v.size, length-append t (filled mp m ∷ []));
                distinct = extend-Distinct mp m t lt n v.distinct;
                fits = All-append Fits t (filled mp m ∷ []) v.fits (filled-Fits mp m, tt);
              })
      ]
    ]

module _ (mounted : Text → Bool) where
  length-prune : (t : Table) → length (prune mounted t) ≡ length t
  unfolding prune
  length-prune [] = refl
  length-prune (s ∷ t) = ap suc (length-prune t)

  prune-Distinct : (t : Table) → Distinct t → Distinct (prune mounted t)
  unfolding prune
  prune-Distinct [] d = tt
  prune-Distinct (s ∷ t) d =
      ground (arith, d.0, prune-Distinct t d.1, view-prune mounted s.mountpoint t)

  prune-Fits : (t : Table) → All Fits t → All Fits (prune mounted t)
  unfolding prune
  prune-Fits [] a = tt
  prune-Fits (s ∷ t) a = ground (arith, prune-Fits t a.1)

length-cleanup_loop : (n : ℕ) (t : Table) → length (cleanup_loop n t).0 ≡ length t
unfolding cleanup_loop
length-cleanup_loop zero t = refl
length-cleanup_loop (suc n) [] = refl
length-cleanup_loop (suc n) (s ∷ t) =
    ground (arith, length-cleanup_loop n t, length-cleanup_loop (suc n) t)

cleanup_loop-view :
    (n : ℕ) (t : Table) (k : Text) → view t k ≡ none → view (cleanup_loop n t).0 k ≡ none
unfolding cleanup_loop view
cleanup_loop-view zero t k h = h
cleanup_loop-view (suc n) [] k h = refl
cleanup_loop-view (suc n) (s ∷ t) k h =
    ground (arith, cleanup_loop-view n t k, cleanup_loop-view (suc n) t k)

cleanup_loop-Distinct : (n : ℕ) (t : Table) → Distinct t → Distinct (cleanup_loop n t).0
unfolding cleanup_loop
cleanup_loop-Distinct zero t d = d
cleanup_loop-Distinct (suc n) [] d = tt
cleanup_loop-Distinct (suc n) (s ∷ t) d = ground (
  arith,
  d.0,
  cleanup_loop-Distinct n t d.1,
  cleanup_loop-Distinct (suc n) t d.1,
  cleanup_loop-view n t s.mountpoint,
  cleanup_loop-view (suc n) t s.mountpoint,
)

cleanup_loop-Fits : (n : ℕ) (t : Table) → All Fits t → All Fits (cleanup_loop n t).0
unfolding cleanup_loop
cleanup_loop-Fits zero t a = a
cleanup_loop-Fits (suc n) [] a = tt
cleanup_loop-Fits (suc n) (s ∷ t) a =
    ground (arith, cleanup_loop-Fits n t a.1, cleanup_loop-Fits (suc n) t a.1)

-- A mount point that fits its field is tracked in a well-formed table, on every branch.
pub mountinfo_track-IsValid :
    (mp : Text) (m : Meta) (t : Table)
    → length mp < 2048
    → IsValid t
    → IsValid (mountinfo_track mp m t).0
unfolding mountinfo_track
mountinfo_track-IsValid mp m t lt v =
    elim (Option-cases (replace_first (hits mp) (λ s. refreshed s m) t)) [
      | inr (u, e) ↦
          rw (e, mountinfo_track)
            (record {
              size = omega (arith, v.size, length-replace_first _ _ t u e);
              distinct = refresh-Distinct mp m t u v.distinct e;
              fits = replace_first-Fits _ _ (refreshed-Fits mp m) t u v.fits e;
            })
      | inl e ↦ rw (e, mountinfo_track) (fresh_slot-IsValid mp m t lt v (refresh_none mp _ t e))
    ]

untrack-IsValid : (mp : Text) (t : Table) → IsValid t → IsValid (mountinfo_untrack mp t)
unfolding mountinfo_untrack
untrack-IsValid mp t v = elim (Option-cases (replace_first (hits mp) cleared t)) [
  | inl e ↦ rw (e, mountinfo_untrack) v
  | inr (u, e) ↦
      rw (e, mountinfo_untrack)
        (record {
          size = omega (arith, v.size, length-replace_first _ _ t u e);
          distinct = clear-Distinct mp t u v.distinct e;
          fits = replace_first-Fits _ _ (λ s h. h) t u v.fits e;
        })
]

prune-IsValid : (mounted : Text → Bool) (t : Table) → IsValid t → IsValid (prune mounted t)
prune-IsValid mounted t v = record {
  size = omega (arith, v.size, length-prune mounted t);
  distinct = prune-Distinct mounted t v.distinct;
  fits = prune-Fits mounted t v.fits;
}

cleanup_loop-IsValid : (n : ℕ) (t : Table) → IsValid t → IsValid (cleanup_loop n t).0
cleanup_loop-IsValid n t v = record {
  size = omega (arith, v.size, length-cleanup_loop n t);
  distinct = cleanup_loop-Distinct n t v.distinct;
  fits = cleanup_loop-Fits n t v.fits;
}

-- The calls that write the table. The list call comes with what /proc/self/mountinfo answers.
pub data Call : Type 0 where
  track : Text → Meta → Call
  untrack : Text → Call
  describe_all : (Text → Bool) → ℕ → Call
  cleanup_all : Call

abbrev pub after : Call → Table → Table
after (track mp m) t = (mountinfo_track mp m t).0
after (untrack mp) t = mountinfo_untrack mp t
after (describe_all mounted n) t = (mountinfo_describe_all mounted n t).0
after cleanup_all t = (mountinfo_cleanup_all t).0

-- The mount points come from fields of 2048 bytes.
abbrev pub IsRequest : Call → Type 0
IsRequest (track mp m) = length mp < 2048
IsRequest _ = Unit {0}

abbrev pub run : List Call → Table → Table
run [] t = t
run (c ∷ cs) t = run cs (after c t)

pub after-IsValid : (c : Call) (t : Table) → IsRequest c → IsValid t → IsValid (after c t)
unfolding mountinfo_describe_all mountinfo_cleanup_all
after-IsValid (track mp m) t r v = mountinfo_track-IsValid mp m t r v
after-IsValid (untrack mp) t r v = untrack-IsValid mp t v
after-IsValid (describe_all mounted zero) t r v = v
after-IsValid (describe_all mounted (suc n)) t r v =
    rw (describe_all-prune mounted n t) (prune-IsValid mounted t v)
after-IsValid cleanup_all t r v = cleanup_loop-IsValid max_tracked t v

run-IsValid : (cs : List Call) (t : Table) → All IsRequest cs → IsValid t → IsValid (run cs t)
run-IsValid [] t r v = v
run-IsValid (c ∷ cs) t r v = run-IsValid cs (after c t) r.1 (after-IsValid c t r.0 v)

-- After any sequence of calls with mount points of less than 2048 bytes, from the empty table, there
-- are at most 256 slots, no mount point is active in two of them, and every field fits its buffer.
pub reachable-IsValid : (cs : List Call) → All IsRequest cs → IsValid (run cs [])
reachable-IsValid cs r =
    run-IsValid cs [] r (record { size = omega arith; distinct = tt; fits = tt })
