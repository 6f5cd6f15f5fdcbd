-- ===== src/MountInfo.antt =====
-- mbroker/daemon/mountinfo.c: the reader of /proc/self/mountinfo and the table of tracked mounts.
-- The table is the array `tracked` cut at `tracked_used`; each call holds `tracked_lock` throughout,
-- so a call is one step. The theorems are in the modules below.
pub mod Slots
pub mod Lookup
pub mod Bounds
pub mod Invariant
pub mod Listing
pub mod Proc
mod Examples
use aiomb.Prelude.{
  ℕ, zero, suc, ◌+◌, ◌-◌, ◌<◌, List, [], ◌∷◌, ◌++◌, Bool, true, false, not, ◌&&◌, Option, none,
  some, Text, codes, length, take, select, is_empty, get_elem?, map, ltb, leb, text_eq,
  if◌then◌else◌,
}
use mathlib.Core.Option
use aiomb.CString.{fit, split, fgets_all}

-- struct tracked_mount
pub record Slot : Type 0 where
  pub mountpoint : Text
  pub overlayroot : Text
  pub baas_path : Text
  pub prebuild_sb : Text
  pub flags : ℕ
  pub active : Bool

abbrev pub Table : Type 0
Table = List Slot

-- MOUNTINFO_MAX_TRACKED
abbrev pub max_tracked : ℕ
max_tracked = 256

-- What a caller passes beside the mount point; `none` is a null pointer.
pub record Meta : Type 0 where
  pub flags : ℕ
  pub overlayroot : Option Text
  pub baas_path : Option Text
  pub prebuild_sb : Option Text

abbrev pub or_empty : Option Text → Text
or_empty none = []
or_empty (some s) = s

abbrev pub refreshed : Slot → Meta → Slot
refreshed s m = record {
  mountpoint = s.mountpoint;
  overlayroot = fit 2048 (or_empty m.overlayroot);
  baas_path = fit 512 (or_empty m.baas_path);
  prebuild_sb = fit 256 (or_empty m.prebuild_sb);
  flags = m.flags;
  active = s.active;
}

-- A slot filled anew, whether it is reused or appended.
abbrev pub filled : Text → Meta → Slot
filled mp m = record {
  mountpoint = fit 2048 mp;
  overlayroot = fit 2048 (or_empty m.overlayroot);
  baas_path = fit 512 (or_empty m.baas_path);
  prebuild_sb = fit 256 (or_empty m.prebuild_sb);
  flags = m.flags;
  active = true;
}

-- tracked[i].active && strcmp(tracked[i].mountpoint, mountpoint) == 0
abbrev pub hits : Text → Slot → Bool
hits mp s = s.active && text_eq s.mountpoint mp

-- The first slot that passes a test is replaced; `none` if none does.
pub replace_first : (Slot → Bool) → (Slot → Slot) → Table → Option Table
replace_first p f [] = none
replace_first p f (s ∷ t) =
    let rest = Option.map (λ (r : Table). s ∷ r) (replace_first p f t) in
    if p s then some (f s ∷ t) else rest

-- The slot where each reader stops its loop.
pub find_first : (Slot → Bool) → Table → Option Slot
find_first p [] = none
find_first p (s ∷ t) = let rest = find_first p t in if p s then some s else rest

-- mountinfo_track: the new table, and whether the call returned 0.
unfoldable pub mountinfo_track : Text → Meta → Table → Table × Bool
unfolding replace_first
mountinfo_track mp m t = elim (replace_first (hits mp) (λ s. refreshed s m) t) [
  | some u ↦ (u, true)
  | none ↦ elim (replace_first (λ s. not s.active) (λ s. filled mp m) t) [
    | some u ↦ (u, true)
    | none ↦ if leb max_tracked (length t) then (t, false) else (t ++ filled mp m ∷ [], true)
  ]
]

unfoldable pub mountinfo_overlayroot_for : Text → Table → Option Text
unfolding find_first
mountinfo_overlayroot_for mp t =
    Option.map (λ (s : Slot). fit 2048 s.overlayroot) (find_first (hits mp) t)

-- The two buffers and the result 1, or `none` for the result 0, which leaves them alone.
unfoldable pub mountinfo_baas_info_for : Text → ℕ → ℕ → Table → Option (Text × Text)
unfolding find_first
mountinfo_baas_info_for mp bp_len ps_len t = elim (find_first (hits mp) t) [
  | none ↦ none
  | some s ↦
      if is_empty s.prebuild_sb
      then none
      else some (fit bp_len s.baas_path, fit ps_len s.prebuild_sb)
]

unfoldable pub mountinfo_flags_for : Text → Table → ℕ
unfolding find_first
mountinfo_flags_for mp t = elim (find_first (hits mp) t) [ none ↦ 0 | some s ↦ s.flags ]

-- The active mount points in slot order, `max` of them at most.
unfoldable pub mountinfo_snapshot_mountpoints : ℕ → Table → List Text
unfolding select
mountinfo_snapshot_mountpoints max t =
    take max (map (λ s. fit 2048 s.mountpoint) (select (λ s. s.active) t))

abbrev pub cleared : Slot → Slot
cleared s = record s { active = false }

unfoldable pub mountinfo_untrack : Text → Table → Table
unfolding replace_first
mountinfo_untrack mp t = elim (replace_first (hits mp) cleared t) [ none ↦ t | some u ↦ u ]

unfoldable pub mountinfo_tracked_count : Table → ℕ
mountinfo_tracked_count [] = 0
mountinfo_tracked_count (s ∷ t) = (if s.active then 1 else 0) + mountinfo_tracked_count t

-- "%s (%s)\n" of mountinfo_describe_all
unfoldable pub describe_line : Slot → Text
describe_line s =
    s.mountpoint
    ++ (codes " ("
        ++ ((if is_empty s.prebuild_sb then codes "-" else s.prebuild_sb)
            ++ (codes ")" ++ 10 ∷ [])))

-- The loop of mountinfo_describe_all: `out` is the text before `off`, `buf` the text in the buffer. A
-- line that does not fit is cut at the end of the buffer, and the next one is written over it.
pub record Report : Type 0 where
  pub out : Text
  pub buf : Text
  pub count : ℕ

pub write_line : ℕ → Text → Report → Report
write_line buflen line r = record {
  out = if ltb (length r.out + length line) buflen then r.out ++ line else r.out;
  buf = r.out ++ fit (buflen - length r.out) line;
  count = r.count + 1;
}

pub describe_loop : (Text → Bool) → ℕ → Table → Report → Table × Report
unfolding write_line describe_line
describe_loop mounted buflen [] r = ([], r)
describe_loop mounted buflen (s ∷ t) r =
    let seen = s.active && mounted s.mountpoint in
    let (rest, r') =
      describe_loop mounted buflen t (if seen then write_line buflen (describe_line s) r else r) in
    ((if seen then s else cleared s) ∷ rest, r')

abbrev pub no_report : Report
no_report = record { out = []; buf = []; count = 0 }

-- mountinfo_describe_all: the pruned table and the buffer; `none` for the result -1.
unfoldable pub mountinfo_describe_all : (Text → Bool) → ℕ → Table → Table × Option Text
unfolding describe_loop
mountinfo_describe_all mounted zero t = (t, none)
mountinfo_describe_all mounted (suc n) t =
    let (u, r) = describe_loop mounted (suc n) t no_report in
    (
      u,
      some (if leb r.count 0 then fit (suc n) (codes "No active sandboxes" ++ 10 ∷ []) else r.buf),
    )

-- The first loop of mountinfo_cleanup_all, with room for `n` more entries in the snapshot.
pub cleanup_loop : ℕ → Table → Table × List Text
cleanup_loop zero t = (t, [])
cleanup_loop (suc n) [] = ([], [])
cleanup_loop (suc n) (s ∷ t) =
    let (u, snapshot) = cleanup_loop (if s.active then n else suc n) t in
    if s.active then (cleared s ∷ u, s.mountpoint ∷ snapshot) else (s ∷ u, snapshot)

-- mountinfo_cleanup_all: the table, and the mount points that are detached, in order.
unfoldable pub mountinfo_cleanup_all : Table → Table × List Text
unfolding cleanup_loop
mountinfo_cleanup_all t = cleanup_loop max_tracked t

-- mountinfo_is_mounted, over the bytes of /proc/self/mountinfo (`none` if it cannot be opened).
unfoldable pub line_mountpoint : Text → Option Text
line_mountpoint line = get_elem? (split b' ' line) 4

pub any_line : Text → List Text → Bool
any_line path [] = false
any_line path (l ∷ ls) =
    let rest = any_line path ls in
    elim (line_mountpoint l) [ none ↦ rest | some f ↦ if text_eq f path then true else rest ]

unfoldable pub mountinfo_is_mounted : Option Text → Text → Bool
unfolding any_line line_mountpoint
mountinfo_is_mounted none path = false
mountinfo_is_mounted (some content) path = any_line path (fgets_all 4096 content)
