-- ===== src/Detached.antt =====
-- The threads that mbroker/daemon/ detaches with a path of their own: remove_dir_async of umount_ops.c,
-- daemon_chown_owner_mountpoint_async of ownership.c and daemon_promote_mountpoint_async of promote.c. Each gives the
-- size of its negative result, and the path that its thread works on, if one starts.
mod Starts
use aiomb.Prelude.{ℕ, Bool, not, Option, none, some, Text, is_empty, if◌then◌else◌}
use aiomb.CString.{fit}

-- The answers of the system: whether calloc gives memory, whether pthread_create starts the thread, and `errno`,
-- which a failure of it leaves as it was and which the code returns then.
pub record Answers : Type 0 where
  pub memory : Bool
  pub starts : Bool
  pub errno : ℕ

-- With a buffer of `size` bytes for the path.
unfoldable pub start_detached : ℕ → Answers → Text → ℕ × Option Text
start_detached size a path =
    if is_empty path
    then (22, none)
    else if not a.memory
    then (12, none)
    else if a.starts
    then (0, some (fit size path))
    else (a.errno, none)

abbrev pub remove_dir_async : Answers → Text → ℕ × Option Text
remove_dir_async = start_detached 4096

abbrev pub daemon_chown_owner_mountpoint_async : Answers → Text → ℕ × Option Text
daemon_chown_owner_mountpoint_async = start_detached 2048

abbrev pub daemon_promote_mountpoint_async : Answers → Text → ℕ × Option Text
daemon_promote_mountpoint_async = start_detached 2048
