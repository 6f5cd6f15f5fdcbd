-- ===== src/MountInfo/Bounds.antt =====
-- The invariant of the table of mbroker/daemon/mountinfo.c, over every sequence of calls.
use aiomb.Prelude.{
  ◌<◌, ◌≤◌, ◌≡◌, refl, [], ◌∷◌, ◌++◌, not, Bool, none, some, Text, length, All, text_eq_iff, arith,
  inl, inr, Option-cases,
}
use aiomb.CString.Laws.{length-fit, fit-of_fits}
use aiomb.MountInfo.{
  Slot, Table, Meta, or_empty, refreshed, filled, hits, replace_first, cleared, max_tracked,
}
use aiomb.MountInfo.Slots.{view, Distinct, view-refresh, view-reuse, view-extend, view-clear}

-- Every field holds a C string of its size.
abbrev pub Fits : Slot → Type 0
Fits s =
    (length s.mountpoint < 2048)
    × (length s.overlayroot < 2048)
    × (length s.baas_path < 512)
    × (length s.prebuild_sb < 256)

pub record IsValid (t : Table) : Type 0 where
  pub size : length t ≤ max_tracked
  pub distinct : Distinct t
  pub fits : All Fits t

module _ (mp : Text) (m : Meta) where
  pub refreshed-Fits : (s : Slot) → Fits s → Fits (refreshed s m)
  refreshed-Fits s h = (
    h.0,
    length-fit 2048 (or_empty m.overlayroot) (omega arith),
    length-fit 512 (or_empty m.baas_path) (omega arith),
    length-fit 256 (or_empty m.prebuild_sb) (omega arith),
  )

  pub filled-Fits : Fits (filled mp m)
  filled-Fits = (
    length-fit 2048 mp (omega arith),
    length-fit 2048 (or_empty m.overlayroot) (omega arith),
    length-fit 512 (or_empty m.baas_path) (omega arith),
    length-fit 256 (or_empty m.prebuild_sb) (omega arith),
  )

-- A replacement keeps the length, and what holds of every slot if the new one has it.
module _ (p : Slot → Bool) (f : Slot → Slot) where
  pub length-replace_first : (t u : Table) → replace_first p f t ≡ some u → length u ≡ length t
  unfolding replace_first
  length-replace_first [] u h = ground arith
  length-replace_first (s ∷ t) u h = elim (Option-cases (replace_first p f t)) [
    | inl e ↦ ground arith
    | inr (v, e) ↦ ground (arith, length-replace_first t v e)
  ]

  pub replace_first-Fits :
      ((s : Slot) → Fits s → Fits (f s))
      → (t u : Table) → All Fits t
      → replace_first p f t ≡ some u
      → All Fits u
  unfolding replace_first
  replace_first-Fits keep [] u a h = ground arith
  replace_first-Fits keep (s ∷ t) u a h = elim (Option-cases (replace_first p f t)) [
    | inl e ↦ ground (arith, keep s a.0)
    | inr (v, e) ↦ ground (arith, keep s a.0, replace_first-Fits keep t v a.1 e)
  ]

pub refresh-Distinct :
    (mp : Text) (m : Meta) (t u : Table)
    → Distinct t
    → replace_first (hits mp) (λ s. refreshed s m) t ≡ some u
    → Distinct u
unfolding replace_first
refresh-Distinct mp m [] u d h = ground arith
refresh-Distinct mp m (s ∷ t) u d h =
    elim (Option-cases (replace_first (hits mp) (λ s. refreshed s m) t)) [
      | inl e ↦ ground (arith, d.0)
      | inr (v, e) ↦ ground (
        arith,
        d.0,
        refresh-Distinct mp m t v d.1 e,
        view-refresh mp s.mountpoint m t v e,
        text_eq_iff mp s.mountpoint,
        text_eq_iff s.mountpoint mp,
      )
    ]

pub reuse-Distinct :
    (mp : Text) (m : Meta) (t u : Table)
    → length mp < 2048
    → view t mp ≡ none
    → Distinct t
    → replace_first (λ s. not s.active) (λ s. filled mp m) t ≡ some u
    → Distinct u
unfolding replace_first view
reuse-Distinct mp m [] u lt n d h = ground arith
reuse-Distinct mp m (s ∷ t) u lt n d h =
    elim (Option-cases (replace_first (λ s. not s.active) (λ s. filled mp m) t)) [
      | inl e ↦ ground (
        arith,
        d.0,
        fit-of_fits 2048 mp lt,
        text_eq_iff mp s.mountpoint,
        text_eq_iff s.mountpoint mp,
      )
      | inr (v, e) ↦ ground (
        arith,
        d.0,
        fit-of_fits 2048 mp lt,
        reuse-Distinct mp m t v lt,
        view-reuse mp s.mountpoint m t v lt,
        text_eq_iff mp s.mountpoint,
        text_eq_iff s.mountpoint mp,
      )
    ]

pub extend-Distinct :
    (mp : Text) (m : Meta) (t : Table)
    → length mp < 2048
    → view t mp ≡ none
    → Distinct t
    → Distinct (t ++ filled mp m ∷ [])
unfolding view
extend-Distinct mp m [] lt n d = (λ e. refl, tt)
extend-Distinct mp m (s ∷ t) lt n d = ground (
  arith,
  d.0,
  extend-Distinct mp m t lt,
  view-extend mp s.mountpoint m t lt,
  text_eq_iff mp s.mountpoint,
  text_eq_iff s.mountpoint mp,
)

pub clear-Distinct :
    (mp : Text) (t u : Table) → Distinct t → replace_first (hits mp) cleared t ≡ some u → Distinct u
unfolding replace_first
clear-Distinct mp [] u d h = ground arith
clear-Distinct mp (s ∷ t) u d h = elim (Option-cases (replace_first (hits mp) cleared t)) [
  | inl e ↦ ground (arith, d.0)
  | inr (v, e) ↦ ground (
    arith,
    d.0,
    clear-Distinct mp t v d.1 e,
    view-clear mp s.mountpoint t v d.1 e,
    text_eq_iff mp s.mountpoint,
    text_eq_iff s.mountpoint mp,
  )
]
