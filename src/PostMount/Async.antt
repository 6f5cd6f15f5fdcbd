-- ===== src/PostMount/Async.antt =====
-- start_post_mount_chown_async of mbroker/daemon/post_mount.c and the thread that it starts.
use aiomb.Prelude.{
  ℕ, zero, suc, List, [], ◌∷◌, ◌++◌, false, ◌||◌, Option, none, some, Text, ◌<◌, ◌≤◌, is_empty,
  length, take, map, All, ◌≡◌, refl, sym, ap, ◌∙◌, arith, Bool-cases, inl, inr,
}
use mathlib.Core.Path.{subst}
use mathlib.Core.Option.{some-injective}
use aiomb.CString.{fit, has_byte}
use aiomb.CString.Laws.{fit-of_fits}
use aiomb.DaemonConfig.{DaemonConfig}
use aiomb.DaemonConfig.Bounds.{IsValid, IsRelative}
use aiomb.PostMount.{
  Found, has_wildcard, post_mount_chown_thread, ChownReq, start_post_mount_chown_async,
}
use aiomb.PostMount.Below.{Below, thread-Below}

kept : (n : ℕ) (ds : List Text) → length ds ≤ n → All IsRelative ds → map (fit 512) (take n ds) ≡ ds
kept zero [] le a = refl
kept (suc n) [] le a = refl
kept zero (d ∷ ds) le a = ground arith
kept (suc n) (d ∷ ds) le a =
    let (_, _, _, short) = a.0 in
    let same : fit 512 d ≡ d = fit-of_fits 512 d short in
    rw (same, kept n ds (omega arith) a.1) refl

-- With a configuration as config_load leaves it, the chown after a mount goes through every directory of the
-- configuration, and every path that it gives to the user continues the path of the sandbox behind a slash. This
-- supposes a path of the sandbox that fits its field and has no wildcard and no backslash, and a glob whose matches
-- begin with the part of the pattern that is before its first wildcard or backslash.
pub start_post_mount_chown_async-Below :
    (errors : Text → ℕ) (found : Text → Found) (glob : Text → Option (List Text))
    (sandboxname : Text) (cfg : DaemonConfig) (r : ChownReq)
    → ((pre pattern : Text) (ms : List Text)
        → has_wildcard pre ≡ false
        → has_byte b'\\' pre ≡ false
        → glob (pre ++ pattern) ≡ some ms
        → All (λ m. (s : Text) × (m ≡ pre ++ s)) ms)
    → has_wildcard sandboxname ≡ false
    → has_byte b'\\' sandboxname ≡ false
    → length sandboxname < 2048
    → IsValid cfg
    → start_post_mount_chown_async sandboxname cfg ≡ some r
    → (r.dirs ≡ cfg.post_mount_chown_dirs)
      × All (Below sandboxname) (post_mount_chown_thread errors found glob r.sandboxname r.dirs [])
unfolding start_post_mount_chown_async
start_post_mount_chown_async-Below errors found glob sandboxname cfg r literal plain unescaped short
      v e =
    elim (Bool-cases (is_empty sandboxname || is_empty cfg.post_mount_chown_dirs)) [
      | inl idle ↦ let wrong : none ≡ some r = (rw idle at e) in ground arith
      | inr goes ↦
          let made : ChownReq = record {
            sandboxname = fit 2048 sandboxname;
            dirs = map (fit 512) (take 32 cfg.post_mount_chown_dirs);
          } in
          let same : made ≡ r = some-injective made r (rw goes at e) in
          let dirs : r.dirs ≡ cfg.post_mount_chown_dirs =
            ap (λ (x : ChownReq). x.dirs) (sym same)
            ∙ kept 32 cfg.post_mount_chown_dirs v.chown_count v.chown_dirs in
          let name : r.sandboxname ≡ sandboxname =
            ap (λ (x : ChownReq). x.sandboxname) (sym same) ∙ fit-of_fits 2048 sandboxname short in
          let below =
            thread-Below errors sandboxname found glob literal plain unescaped r.dirs [] tt in
          (
            dirs,
            subst
                (λ s.
                  All (Below sandboxname) (post_mount_chown_thread errors found glob s r.dirs []))
                (sym name) below,
          )
    ]
