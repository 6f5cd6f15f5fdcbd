-- ===== src/Client/Run.antt =====
-- What mbroker/client/main.c does to the outside: an action for each call that changes something, a failure
-- that keeps the actions done before it, and the files of mbroker/client/mount_util.c.
use aiomb.Prelude.{
  ℕ, List, [], ◌∷◌, ◌++◌, Bool, true, false, Option, none, some, Text, codes, text_eq, is_empty,
  leb, length, if◌then◌else◌,
}
use aiomb.CString.{fit, isspace, trim_left, strip_prefix, fgets_all}
use aiomb.Broker.{Request}

-- A command run by system, one run by a detached grandchild, a line behind a log file, a chmod to 0777, and
-- a request sent to the daemon.
pub data Act : Type 0 where
  system detached open_mode : Text → Act
  logged : Text → Text → Act
  sent : Request → Act

-- `none` is a return of -1, or an exit code of 1.
abbrev pub Run : Type 0 → Type 0
Run A = List Act → Option A × List Act

module _ {A : Type 0} where
  unfoldable pub pure : A → Run A
  pure a t = (some a, t)

  unfoldable pub lift : Option A → Run A
  lift o t = (o, t)

unfoldable pub emit : Act → Run (Unit {0})
emit a t = (some tt, t ++ a ∷ [])

unfoldable pub require : Bool → Run (Unit {0})
require b t = (if b then some tt else none, t)

-- snprintf into a buffer of n bytes that has to hold the whole text
unfoldable pub checked : ℕ → Text → Run Text
checked n s t = (if leb n (length s) then none else some s, t)

module _ {A B : Type 0} where
  abbrev pub continue : Option A → (A → Run B) → Run B
  continue none f t = (none, t)
  continue (some a) f t = f a t

  -- To open this opens the actions above.
  infixl 5 ◌>>=◌ ◌>>◌
  unfoldable pub ◌>>=◌ : Run A → (A → Run B) → Run B
  unfolding pure lift emit require checked
  ◌>>=◌ m f t = let (o, t') = m t in continue o f t'

  abbrev pub ◌>>◌ : Run A → Run B → Run B
  m >> k = m >>= λ _. k

-- ensure_tmp_log_mode
unfoldable pub ensure_tmp_log_mode : Text → Run (Unit {0})
ensure_tmp_log_mode path t = elim (strip_prefix (codes "/tmp/") path) [
  | none ↦ (some tt, t)
  | some _ ↦ (some tt, t ++ open_mode path ∷ [])
]

unfoldable pub take_word : Text → Text
take_word [] = []
take_word (c ∷ s) = let rest = take_word s in if isspace c then [] else c ∷ rest

unfoldable pub drop_word : Text → Text
drop_word [] = []
drop_word (c ∷ s) = let rest = drop_word s in if isspace c then c ∷ s else rest

-- sscanf(line, "%*s %4095s …", mountpoint)
unfoldable pub second_word : Text → Text
unfolding take_word drop_word
second_word line = fit 4096 (take_word (trim_left (drop_word (trim_left line))))

unfoldable pub any_line_mounts : Text → List Text → Bool
unfolding second_word
any_line_mounts path [] = false
any_line_mounts path (line ∷ lines) =
    let rest = any_line_mounts path lines in
    let mountpoint = second_word line in
    if is_empty mountpoint then rest else if text_eq mountpoint path then true else rest

-- is_path_mounted on /proc/mounts, or on a file that does not open
unfoldable pub is_path_mounted : Option Text → Text → Bool
unfolding any_line_mounts
is_path_mounted none path = false
is_path_mounted (some mounts) path = any_line_mounts path (fgets_all 8192 mounts)
