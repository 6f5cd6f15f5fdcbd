-- ===== src/MountInfo/Slots.antt =====
-- The loops over the slots of mbroker/daemon/mountinfo.c, and the map from mount points to metadata
-- that the table stands for.
use mathlib.Core.Option
use aiomb.Prelude.{
  ℕ, ◌<◌, ◌≤◌, ◌≡◌, refl, [], ◌∷◌, ◌++◌, true, not, Option, none, some, Text, length, text_eq,
  text_eq_iff, arith, if◌then◌else◌, inl, inr, Option-cases,
}
use aiomb.CString.{fit}
use aiomb.CString.Laws.{fit-of_fits}
use aiomb.MountInfo.{
  Slot, Table, Meta, or_empty, refreshed, filled, hits, replace_first, find_first, cleared,
  mountinfo_tracked_count,
}

-- What the table holds for one mount point.
pub record Entry : Type 0 where
  pub overlayroot : Text
  pub baas_path : Text
  pub prebuild_sb : Text
  pub flags : ℕ

abbrev pub entry : Slot → Entry
entry s = record {
  overlayroot = s.overlayroot;
  baas_path = s.baas_path;
  prebuild_sb = s.prebuild_sb;
  flags = s.flags;
}

abbrev pub stored : Meta → Entry
stored m = record {
  overlayroot = fit 2048 (or_empty m.overlayroot);
  baas_path = fit 512 (or_empty m.baas_path);
  prebuild_sb = fit 256 (or_empty m.prebuild_sb);
  flags = m.flags;
}

-- The table as a finite map.
unfoldable pub view : Table → Text → Option Entry
unfolding find_first
view [] k = none
view (s ∷ t) k = if hits k s then some (entry s) else view t k

-- No two active slots have the same mount point.
abbrev pub Distinct : Table → Type 0
Distinct [] = Unit {0}
Distinct (s ∷ t) = (s.active ≡ true → view t s.mountpoint ≡ none) × Distinct t

pub view-find_first :
    (k : Text) (t : Table) → view t k ≡ Option.map (λ (s : Slot). entry s) (find_first (hits k) t)
unfolding view find_first
view-find_first k [] = refl
view-find_first k (s ∷ t) = ground (arith, view-find_first k t)

-- A refreshed slot changes the entry of its own mount point.
pub view-refresh :
    (mp k : Text) (m : Meta) (t u : Table)
    → replace_first (hits mp) (λ s. refreshed s m) t ≡ some u
    → view u k ≡ (if text_eq mp k then some (stored m) else view t k)
unfolding view replace_first
view-refresh mp k m [] u h = ground arith
view-refresh mp k m (s ∷ t) u h =
    elim (Option-cases (replace_first (hits mp) (λ s. refreshed s m) t)) [
      | inl e ↦
          ground (arith, text_eq_iff mp k, text_eq_iff s.mountpoint mp, text_eq_iff s.mountpoint k)
      | inr (v, e) ↦ ground (
        arith,
        view-refresh mp k m t v e,
        text_eq_iff mp k,
        text_eq_iff s.mountpoint mp,
        text_eq_iff s.mountpoint k,
      )
    ]

-- No slot is refreshed exactly where the map has no entry.
pub refresh_none :
    (mp : Text) (f : Slot → Slot) (t : Table)
    → replace_first (hits mp) f t ≡ none
    → view t mp ≡ none
unfolding view replace_first
refresh_none mp f [] h = refl
refresh_none mp f (s ∷ t) h = ground (arith, refresh_none mp f t)

pub view-none :
    (mp : Text) (f : Slot → Slot) (t : Table)
    → view t mp ≡ none
    → replace_first (hits mp) f t ≡ none
unfolding view replace_first
view-none mp f [] h = refl
view-none mp f (s ∷ t) h = ground (arith, view-none mp f t)

-- A reused slot adds an entry for a mount point that had none.
pub view-reuse :
    (mp k : Text) (m : Meta) (t u : Table)
    → length mp < 2048
    → view t mp ≡ none
    → replace_first (λ s. not s.active) (λ s. filled mp m) t ≡ some u
    → view u k ≡ (if text_eq mp k then some (stored m) else view t k)
unfolding view replace_first
view-reuse mp k m [] u lt n h = ground arith
view-reuse mp k m (s ∷ t) u lt n h =
    elim (Option-cases (replace_first (λ s. not s.active) (λ s. filled mp m) t)) [
      | inl e ↦ ground (
        arith,
        text_eq_iff mp k,
        text_eq_iff s.mountpoint mp,
        text_eq_iff s.mountpoint k,
        fit-of_fits 2048 mp lt,
      )
      | inr (v, e) ↦ ground (
        arith,
        view-reuse mp k m t v lt,
        text_eq_iff mp k,
        text_eq_iff s.mountpoint mp,
        text_eq_iff s.mountpoint k,
        fit-of_fits 2048 mp lt,
      )
    ]

pub view-extend :
    (mp k : Text) (m : Meta) (t : Table)
    → length mp < 2048
    → view t mp ≡ none
    → view (t ++ filled mp m ∷ []) k ≡ (if text_eq mp k then some (stored m) else view t k)
unfolding view
view-extend mp k m [] lt n = ground (arith, fit-of_fits 2048 mp lt)
view-extend mp k m (s ∷ t) lt n = ground (
  arith,
  view-extend mp k m t lt,
  text_eq_iff mp k,
  text_eq_iff s.mountpoint mp,
  text_eq_iff s.mountpoint k,
)

-- A cleared slot takes its entry away, where no other active slot has its mount point.
pub view-clear :
    (mp k : Text) (t u : Table)
    → Distinct t
    → replace_first (hits mp) cleared t ≡ some u
    → view u k ≡ (if text_eq mp k then none else view t k)
unfolding view replace_first
view-clear mp k [] u d h = ground arith
view-clear mp k (s ∷ t) u d h = elim (Option-cases (replace_first (hits mp) cleared t)) [
  | inl e ↦ ground (
    arith,
    refresh_none mp cleared t e,
    d.0,
    text_eq_iff mp k,
    text_eq_iff s.mountpoint mp,
    text_eq_iff s.mountpoint k,
  )
  | inr (v, e) ↦ ground (
    arith,
    view-clear mp k t v d.1 e,
    d.0,
    text_eq_iff mp k,
    text_eq_iff s.mountpoint mp,
    text_eq_iff s.mountpoint k,
  )
]

pub tracked_count-le : (t : Table) → mountinfo_tracked_count t ≤ length t
unfolding mountinfo_tracked_count
tracked_count-le [] = omega arith
tracked_count-le (s ∷ t) = ground (arith, tracked_count-le t)
