-- ===== src/PostMount/Examples.antt =====
-- A mounted sandbox and the chown after its mount, of mbroker/daemon/post_mount.c.
use mathlib.Core.List.{append_assoc}
use mathlib.Core.Path.{subst}
use mathlib.Core.Option.{some-injective}
use aiomb.Prelude.{
  List, [], ◌∷◌, ◌++◌, true, false, ◌||◌, Option, some, Text, codes, text_eq, ◌==◌, All,
  if◌then◌else◌, ◌≡◌, refl, ap, ◌∙◌, arith,
}
use aiomb.CString.{has_byte, has_dotdot, fit}
use aiomb.FileTree.{dir, is_dot}
use aiomb.DaemonConfig.{DaemonConfig, zeroed}
use aiomb.DaemonConfig.Bounds.{IsValid}
use aiomb.Ownership.{no_cycle, chown_tree_fchownat}
use aiomb.Ownership.Whole.{is_whole}
use aiomb.Ownership.Examples.{no_errors, tree, some_path, some_path-append}
use aiomb.PostMount.{
  Found, present, has_wildcard, chown_dir_recursive, post_mount_chown_thread, ChownReq,
  start_post_mount_chown_async,
}
use aiomb.PostMount.Below.{Below}
use aiomb.PostMount.Async.{start_post_mount_chown_async-Below}
use aiomb.PostMount.Same.{chown_dir_recursive_lem}

-- A directory with files at every path.
abbrev found : Text → Found
found p = present (dir true tree)

-- A glob that finds one name for what is behind the literal part of a pattern.
abbrev literal_part : Text → Text
literal_part [] = []
literal_part (c ∷ s) =
    let rest = literal_part s in if c == b'\\' || has_wildcard (c ∷ []) then [] else c ∷ rest

abbrev glob : Text → Option (List Text)
glob pattern = some ((literal_part pattern ++ codes "x") ∷ [])

literal_part-append :
    (pre pattern : Text)
    → has_wildcard pre ≡ false
    → has_byte b'\\' pre ≡ false
    → literal_part (pre ++ pattern) ≡ pre ++ literal_part pattern
unfolding has_wildcard has_byte
literal_part-append [] pattern w b = refl
literal_part-append (c ∷ pre) pattern w b = ground (arith, literal_part-append pre pattern)

glob-literal :
    (pre pattern : Text) (ms : List Text)
    → has_wildcard pre ≡ false
    → has_byte b'\\' pre ≡ false
    → glob (pre ++ pattern) ≡ some ms
    → All (λ m. (s : Text) × (m ≡ pre ++ s)) ms
glob-literal pre pattern ms w b e =
    let same = some-injective ((literal_part (pre ++ pattern) ++ codes "x") ∷ []) ms e in
    let begins =
      ap (λ p. p ++ codes "x") (literal_part-append pre pattern w b)
      ∙ append_assoc pre (literal_part pattern) (codes "x") in
    subst (All (λ m. (s : Text) × (m ≡ pre ++ s))) same
      ((literal_part pattern ++ codes "x", begins), tt)

abbrev cfg : DaemonConfig
cfg = record zeroed { post_mount_chown_dirs = codes "out" ∷ codes "gen*" ∷ [] }

cfg-IsValid : IsValid cfg
unfolding has_dotdot
cfg-IsValid = record {
  root = omega arith;
  socket = omega arith;
  chown_count = omega arith;
  chown_dirs = ((refl, refl, refl, omega arith), ((refl, refl, refl, omega arith), tt));
  whiteout_count = omega arith;
  whiteout_dirs = tt;
  server_count = omega arith;
  servers = tt;
}

abbrev request : ChownReq
request = record { sandboxname = codes "/ws/sb"; dirs = codes "out" ∷ codes "gen*" ∷ [] }

starts : start_post_mount_chown_async (codes "/ws/sb") cfg ≡ some request
unfolding start_post_mount_chown_async fit
starts = refl

start_post_mount_chown_async-Below_example :
    (request.dirs ≡ cfg.post_mount_chown_dirs)
    × All
        (Below (codes "/ws/sb"))
        (post_mount_chown_thread no_errors found glob (codes "/ws/sb") request.dirs [])
unfolding has_wildcard has_byte
start_post_mount_chown_async-Below_example =
    start_post_mount_chown_async-Below no_errors found glob (codes "/ws/sb") cfg request
      glob-literal refl refl (omega arith) cfg-IsValid starts

chown_dir_recursive_lem_example :
    (some_path (chown_dir_recursive no_errors (codes "/ws") (dir true tree) []).0
      ≡ some_path (chown_tree_fchownat no_errors (codes "/ws") (dir true tree) no_cycle).owned)
    × ((chown_dir_recursive no_errors (codes "/ws") (dir true tree) []).1 ≡ true)
unfolding is_whole is_dot text_eq
chown_dir_recursive_lem_example =
    chown_dir_recursive_lem no_errors (λ p. refl) some_path refl some_path-append (codes "/ws")
      (dir true tree) refl refl
