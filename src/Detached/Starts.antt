-- ===== src/Detached/Starts.antt =====
-- What the results of the starts of mbroker/daemon/umount_ops.c, ownership.c and promote.c say.
use aiomb.Prelude.{
  ℕ, Bool, true, false, Option, none, some, Text, length, ◌<◌, ◌≡◌, ◌≢◌, refl, ◌==◌, arith, codes,
}
use aiomb.CString.Laws.{fit-of_fits}
use aiomb.Detached.{Answers, start_detached, remove_dir_async}

abbrev is_some : Option Text → Bool
is_some none = false
is_some (some t) = true

-- Where `errno` is not 0, a start returns 0 exactly when its thread runs.
start_detached-Runs :
    (size : ℕ) (a : Answers) (path : Text)
    → a.errno ≢ 0
    → ((start_detached size a path).0 == 0) ≡ is_some (start_detached size a path).1
unfolding start_detached
start_detached-Runs size a path e = ground arith

-- A thread that runs has the whole path, where that is shorter than its buffer.
start_detached-whole :
    (size : ℕ) (a : Answers) (path p : Text)
    → length path < size
    → (start_detached size a path).1 ≡ some p
    → p ≡ path
unfolding start_detached
start_detached-whole size a path p fits e = ground (arith, fit-of_fits size path)

-- With an `errno` of 0, a failed pthread_create passes for a success.
never_started :
    remove_dir_async (record { memory = true; starts = false; errno = 0 }) (codes "/o") ≡ (0, none)
unfolding start_detached
never_started = refl
