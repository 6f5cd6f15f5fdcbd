-- ===== src/MountInfo/Lookup.antt =====
-- The calls of mbroker/daemon/mountinfo.c that write and read entries, against the finite map.
use mathlib.Core.Option
use aiomb.Prelude.{
  ℕ, ◌<◌, ◌≤◌, ◌≡◌, refl, ◌↔◌, [], ◌∷◌, true, false, not, Option, none, some, Text, length, text_eq,
  text_eq_iff, text_eq_refl, arith, if◌then◌else◌, inl, inr, Option-cases, is_empty, Bool, ap, ◌∙◌,
}
use aiomb.CString.{fit}
use aiomb.CString.Laws.{fit_idem}
use aiomb.MountInfo.{
  Slot, Table, Meta, or_empty, refreshed, filled, hits, replace_first, cleared, max_tracked,
  mountinfo_track, mountinfo_untrack, mountinfo_overlayroot_for, mountinfo_baas_info_for,
  mountinfo_flags_for, mountinfo_tracked_count,
}
use aiomb.MountInfo.Slots.{
  Entry, stored, view, Distinct, view-find_first, view-refresh, view-reuse, view-extend, view-clear,
  refresh_none, view-none, tracked_count-le,
}

-- A call of mountinfo_track that returns 0 sets the entry of its mount point and no other, on each of
-- its three ways: a refreshed slot, a reused one, and a new one. The mount point fits its field.
pub view-mountinfo_track :
    (mp k : Text) (m : Meta) (t : Table)
    → length mp < 2048
    → (mountinfo_track mp m t).1 ≡ true
    → view (mountinfo_track mp m t).0 k ≡ (if text_eq mp k then some (stored m) else view t k)
unfolding mountinfo_track
view-mountinfo_track mp k m t lt h =
    elim (Option-cases (replace_first (hits mp) (λ s. refreshed s m) t)) [
      | inr (u, e) ↦ ground (arith, view-refresh mp k m t u e)
      | inl e ↦ elim (Option-cases (replace_first (λ s. not s.active) (λ s. filled mp m) t)) [
        | inr (v, g) ↦ ground (arith, view-reuse mp k m t v lt (refresh_none mp _ t e) g)
        | inl g ↦ ground (arith, view-extend mp k m t lt (refresh_none mp _ t e))
      ]
    ]

no_free_slot :
    (f : Slot → Slot) (t : Table)
    → replace_first (λ s. not s.active) f t ≡ none
    → mountinfo_tracked_count t ≡ length t
unfolding replace_first mountinfo_tracked_count
no_free_slot f [] h = refl
no_free_slot f (s ∷ t) h = ground (arith, no_free_slot f t)

all_active :
    (f : Slot → Slot) (t : Table)
    → mountinfo_tracked_count t ≡ length t
    → replace_first (λ s. not s.active) f t ≡ none
unfolding replace_first mountinfo_tracked_count
all_active f [] h = refl
all_active f (s ∷ t) h = ground (arith, all_active f t, tracked_count-le t)

abbrev pub IsFull : Text → Table → Type 0
IsFull mp t = (view t mp ≡ none) × (mountinfo_tracked_count t ≡ length t) × (max_tracked ≤ length t)

track_false : (mp : Text) (m : Meta) (t : Table) → (mountinfo_track mp m t).1 ≡ false → IsFull mp t
unfolding mountinfo_track
track_false mp m t h = elim (Option-cases (replace_first (hits mp) (λ s. refreshed s m) t)) [
  | inr (u, e) ↦ ground arith
  | inl e ↦ elim (Option-cases (replace_first (λ s. not s.active) (λ s. filled mp m) t)) [
    | inr (v, g) ↦ ground arith
    | inl g ↦ (refresh_none mp _ t e, no_free_slot _ t g, ground arith)
  ]
]

track_full : (mp : Text) (m : Meta) (t : Table) → IsFull mp t → mountinfo_track mp m t ≡ (t, false)
unfolding mountinfo_track
track_full mp m t h =
    ground (arith, view-none mp (λ s. refreshed s m) t h.0, all_active (λ s. filled mp m) t h.1)

-- mountinfo_track returns -1 exactly when the mount point is not tracked, every slot is active and
-- there are 256 of them, and in this case alone it returns -1 with the table unchanged.
pub mountinfo_track_fails :
    (mp : Text) (m : Meta) (t : Table)
    → (((mountinfo_track mp m t).1 ≡ false) ↔ IsFull mp t)
      × ((mountinfo_track mp m t ≡ (t, false)) ↔ IsFull mp t)
mountinfo_track_fails mp m t = (
  (track_false mp m t, λ h. ap (λ (r : Table × Bool). r.1) (track_full mp m t h)),
  (λ e. track_false mp m t (ap (λ (r : Table × Bool). r.1) e), track_full mp m t),
)

-- mountinfo_untrack takes away the entry of its mount point and no other.
pub view-mountinfo_untrack :
    (mp k : Text) (t : Table)
    → Distinct t
    → view (mountinfo_untrack mp t) k ≡ (if text_eq mp k then none else view t k)
unfolding mountinfo_untrack
view-mountinfo_untrack mp k t d = elim (Option-cases (replace_first (hits mp) cleared t)) [
  | inr (u, e) ↦ ground (arith, view-clear mp k t u d e)
  | inl e ↦ ground (arith, refresh_none mp cleared t e, text_eq_iff mp k)
]

-- The readers are functions of the entry.
abbrev baas_of : ℕ → ℕ → Option Entry → Option (Text × Text)
baas_of n k none = none
baas_of n k (some e) =
    if is_empty e.prebuild_sb then none else some (fit n e.baas_path, fit k e.prebuild_sb)

baas_info-view :
    (mp : Text) (n k : ℕ) (t : Table) → mountinfo_baas_info_for mp n k t ≡ baas_of n k (view t mp)
unfolding mountinfo_baas_info_for
baas_info-view mp n k t = ground (arith, view-find_first mp t)

overlayroot-view :
    (mp : Text) (t : Table)
    → mountinfo_overlayroot_for mp t
      ≡ Option.map (λ (e : Entry). fit 2048 e.overlayroot) (view t mp)
unfolding mountinfo_overlayroot_for
overlayroot-view mp t = ground (arith, view-find_first mp t)

abbrev flags_of : Option Entry → ℕ
flags_of none = 0
flags_of (some e) = e.flags

flags-view : (mp : Text) (t : Table) → mountinfo_flags_for mp t ≡ flags_of (view t mp)
unfolding mountinfo_flags_for
flags-view mp t = ground (arith, view-find_first mp t)

module _ (mp : Text) (m : Meta) (t : Table) (lt : length mp < 2048)
    (done : (mountinfo_track mp m t).1 ≡ true) where
  tracked_entry : view (mountinfo_track mp m t).0 mp ≡ some (stored m)
  tracked_entry = view-mountinfo_track mp mp m t lt done ∙ rw (text_eq_refl mp)

  -- After mountinfo_track has returned 0, the three readers of the daemon return what was tracked, cut to
  -- the fields' sizes; mountinfo_baas_info_for returns 0 when the prebuild name is empty.
  pub readers-mountinfo_track :
      (mountinfo_overlayroot_for mp (mountinfo_track mp m t).0
        ≡ some (fit 2048 (or_empty m.overlayroot)))
      × (mountinfo_flags_for mp (mountinfo_track mp m t).0 ≡ m.flags)
      × (mountinfo_baas_info_for mp 512 256 (mountinfo_track mp m t).0 ≡ (
          if is_empty (fit 256 (or_empty m.prebuild_sb))
          then none
          else some (fit 512 (or_empty m.baas_path), fit 256 (or_empty m.prebuild_sb))))
  readers-mountinfo_track = (
    overlayroot-view mp _ ∙ rw (tracked_entry, fit_idem 2048 (or_empty m.overlayroot)),
    flags-view mp _ ∙ rw tracked_entry,
    baas_info-view mp 512 256 _
        ∙ rw (
          tracked_entry,
          fit_idem 512 (or_empty m.baas_path),
          fit_idem 256 (or_empty m.prebuild_sb),
        ),
  )
