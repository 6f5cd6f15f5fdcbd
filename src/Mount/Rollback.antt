-- ===== src/Mount/Rollback.antt =====
-- What handle_custom_lowerdir of mbroker/daemon/mount_ops.c leaves mounted.
use aiomb.Prelude.{ℕ, ◌||◌, none, some, Text, ◌≡◌}
use aiomb.Mount.{World}
use aiomb.Mount.Lower.{Lower}
use aiomb.Mount.Undo.{Same, is_target}

-- What a call leaves: the mounts of before on a failure, and those of the first `n` targets more on a success.
abbrev pub Leaves : (ℕ → Text) → World → Lower → Text → Type 0
Leaves target w r p =
    Same w r.0
    × (r.0.mounted p ≡ elim r.1 [
      | none ↦ w.mounted p
      | some (resolved, n) ↦ w.mounted p || is_target target n p
    ])
