-- ===== src/Mount/Undo.antt =====
-- The NFS mounts of handle_custom_lowerdir, made and undone.
use aiomb.Prelude.{
  ℕ, zero, suc, ◌+◌, List, [], ◌∷◌, Bool, true, false, ◌||◌, Option, none, some, Text, ◌==◌, leb,
  length, if◌then◌else◌, ◌≡◌, refl, ap, ◌∙◌, inl, inr, Bool-cases, Option-cases, arith, text_eq,
  text_eq_sound,
}
use aiomb.CString.{first}
use aiomb.Mount.{World, Env, put, mount_at}
use aiomb.Mount.Lower.{
  Walk, walk_on, add_component, added, try_mount, server_for, mount_nfs, local_component,
  nfs_component, walk_components,
}

-- All but the mounts and errno is the same.
abbrev pub Same : World → World → Type 0
Same w v =
    (v.table ≡ w.table) × (v.exports ≡ w.exports) × (v.records ≡ w.records) × (v.jobs ≡ w.jobs)

try_mount-mounted :
    (env : Env) (server path target : Text) (w : World) (ip : Option Text) (p : Text)
    → Same w (try_mount env server path target w ip).0
      × ((try_mount env server path target w ip).0.mounted p ≡ (
          if (try_mount env server path target w ip).1
          then w.mounted p || text_eq target p
          else w.mounted p))
unfolding try_mount mount_at put
try_mount-mounted env server path target w none p = ground arith
try_mount-mounted env server path target w (some ip) p = ground arith

mount_nfs-mounted :
    (env : Env) (host path target : Text) (w : World) (p : Text)
    → Same w (mount_nfs env host path target w).0
      × ((mount_nfs env host path target w).0.mounted p ≡ (
          if (mount_nfs env host path target w).1
          then w.mounted p || text_eq target p
          else w.mounted p))
unfolding mount_nfs
mount_nfs-mounted env host path target w p =
    let same = λ (e : text_eq target p ≡ true). ap w.mounted (text_eq_sound target p e) in
    let server = server_for env.chosen_server host in
    let h = try_mount-mounted env server path target w (env.resolves server) p in
    elim (Bool-cases (text_eq target p)) [
      | inl e ↦ let there : w.mounted target ≡ w.mounted p = same e in ground arith
      | inr e ↦ ground arith
    ]

-- Whether a path is one of the first `k` targets.
unfoldable pub is_target : (ℕ → Text) → ℕ → Text → Bool
is_target target zero p = false
is_target target (suc k) p = let rest = is_target target k p in rest || text_eq (target k) p

is_target-add :
    (target : ℕ → Text) (k : ℕ) (p : Text)
    → is_target target (k + 1) p ≡ (is_target target k p || text_eq (target k) p)
unfolding is_target
is_target-add target k p = let e : k + 1 ≡ suc k = omega arith in rw e refl

-- The mounts are those of before and the first `k` targets.
abbrev pub Mounted : (ℕ → Text) → World → ℕ → World → Type 0
Mounted target w k v = Same w v × ((p : Text) → v.mounted p ≡ (w.mounted p || is_target target k p))

abbrev pub Walked : (ℕ → Text) → World → Walk → Type 0
Walked target w s = Mounted target w s.nfs_idx s.world

module _ (env : Env) (target : ℕ → Text) (w : World) where
  Same-trans : (v u : World) → Same w v → Same v u → Same w u
  Same-trans v u (a, b, c, d) (a', b', c', d') = (a' ∙ a, b' ∙ b, c' ∙ c, d' ∙ d)

  walk_on-Walked :
      (v : World) (k : ℕ) (o : Option Text) → Mounted target w k v → Walked target w (walk_on v k o)
  walk_on-Walked v k none h = h
  walk_on-Walked v k (some joined) h = h

  added-Walked :
      (r part : Text) (v : World) (k : ℕ)
      → Mounted target w k v
      → Walked target w (added r part v k)
  unfolding added
  added-Walked r part v k h = walk_on-Walked v k (add_component r part) h

  local_component-Walked :
      (token r : Text) (v : World) (k : ℕ)
      → Mounted target w k v
      → Walked target w (local_component env token v r k)
  unfolding local_component
  local_component-Walked token r v k h = elim (Bool-cases (env.accessible token)) [
    | inl e ↦ rw e (added-Walked r token v k h)
    | inr e ↦ rw e h
  ]

  mounted_more :
      (v u : World) (k : ℕ)
      → Mounted target w k v
      → ((p : Text) → Same v u × (u.mounted p ≡ (v.mounted p || text_eq (target k) p)))
      → Mounted target w (k + 1) u
  unfolding is_target
  mounted_more v u k (same, h) step =
      (Same-trans v u same (step []).0, λ p. ground (arith, step p, h p, is_target-add target k p))

  mounted_unchanged :
      (v u : World) (k : ℕ)
      → Mounted target w k v
      → ((p : Text) → Same v u × (u.mounted p ≡ v.mounted p))
      → Mounted target w k u
  mounted_unchanged v u k (same, h) step = (Same-trans v u same (step []).0, λ p. (step p).1 ∙ h p)

  nfs_component-Walked :
      (host path r : Text) (v : World) (k : ℕ)
      → Mounted target w k v
      → Walked target w (nfs_component env target host path v r k)
  unfolding nfs_component
  nfs_component-Walked host path r v k h =
      let m = mount_nfs env host path (target k) v in
      let step = λ (p : Text). mount_nfs-mounted env host path (target k) v p in
      elim (Bool-cases (first path == b'/')) [
        | inr e1 ↦ rw e1 h
        | inl e1 ↦ elim (Bool-cases (leb 2048 (length (target k)))) [
          | inl e2 ↦ rw (e1, e2) h
          | inr e2 ↦ elim (Bool-cases (env.makes_dir (target k))) [
            | inr e3 ↦ rw (e1, e2, e3) h
            | inl e3 ↦ elim (Bool-cases m.1) [
              | inl e4 ↦
                  rw (e1, e2, e3, e4)
                    (added-Walked r (target k) m.0 (k + 1)
                      (mounted_more v m.0 k h (λ p. rw e4 at step p)))
              | inr e4 ↦ rw (e1, e2, e3, e4) (mounted_unchanged v m.0 k h (λ p. rw e4 at step p))
            ]
          ]
        ]
      ]

  pub walk_components-Walked :
      (tokens : List Text) (r : Text) (v : World) (k : ℕ)
      → Mounted target w k v
      → Walked target w (walk_components env target tokens v r k)
  unfolding walk_components
  walk_components-Walked [] r v k h = h
  walk_components-Walked (token ∷ []) r v k h = elim (Bool-cases (first token == b'/')) [
    | inl e ↦ rw e (local_component-Walked token r v k h)
    | inr e ↦ rw e h
  ]
  walk_components-Walked (token ∷ path ∷ more) r v k h = elim (Bool-cases (first token == b'/')) [
    | inl e ↦
        let here = local_component env token v r k in
        let h' = local_component-Walked token r v k h in
        elim (Option-cases here.resolved) [
          | inl f ↦ rw (e, f, walk_components) h'
          | inr (r', f) ↦
              rw (e, f, walk_components)
                (walk_components-Walked (path ∷ more) r' here.world here.nfs_idx h')
        ]
    | inr e ↦
        let here = nfs_component env target token path v r k in
        let h' = nfs_component-Walked token path r v k h in
        elim (Option-cases here.resolved) [
          | inl f ↦ rw (e, f, walk_components) h'
          | inr (r', f) ↦
              rw (e, f, walk_components) (walk_components-Walked more r' here.world here.nfs_idx h')
        ]
  ]
