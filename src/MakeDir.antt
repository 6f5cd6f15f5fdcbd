-- ===== src/MakeDir.antt =====
-- mkdir_p of mbroker/daemon/util.c, by which the daemon makes its directories and the mount points. `mkdir` is the
-- errno that the call gives for a path, or 0; the paths that are tried are kept in their order.
mod Way
mod Examples
use aiomb.Prelude.{
  ℕ, List, [], ◌∷◌, ◌++◌, Bool, true, false, ◌||◌, Option, none, some, Text, ◌==◌, if◌then◌else◌,
}
use aiomb.CString.{fit}

-- A slash at the end is taken off, one only.
unfoldable pub strip_slash : Text → Text
strip_slash [] = []
strip_slash (c ∷ []) = if c == b'/' then [] else c ∷ []
strip_slash (c ∷ d ∷ s) = c ∷ strip_slash (d ∷ s)

-- Made, or EEXIST.
abbrev pub is_made : ℕ → Bool
is_made err = err == 0 || err == 17

module _ (mkdir : Text → ℕ) where
  -- The loop from where `p` points at the first byte of the second argument, with the bytes before it, and the last
  -- call of `mkdir` after it: the paths that are tried, and whether 0 is returned.
  unfoldable pub make_from : Text → Text → List Text × Bool
  make_from seen [] = (seen ∷ [], is_made (mkdir seen))
  make_from seen (c ∷ s) =
      let rest = make_from (seen ++ c ∷ []) s in
      if c == b'/'
      then (if is_made (mkdir seen) then (seen ∷ rest.0, rest.1) else (seen ∷ [], false))
      else rest

  abbrev pub make_all : Text → List Text × Bool
  make_all [] = make_from [] []
  make_all (c ∷ s) = make_from (c ∷ []) s

  -- On the empty path the code reads in front of its buffer: `none`.
  unfoldable pub mkdir_p : Text → Option (List Text × Bool)
  mkdir_p [] = none
  mkdir_p (c ∷ s) = some (make_all (strip_slash (fit 512 (c ∷ s))))
