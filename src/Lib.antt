-- ===== src/Lib.antt =====
-- AI-OMB, the mount broker of mbroker/: a daemon that mounts overlay sandboxes for unprivileged users,
-- and the client that asks it to. This library models the C code of mbroker/ as functions on explicit
-- state, and proves what they do.
--
-- The parts, and how they work together:
--   Broker        mbroker/daemon/broker.c: handle_client ends the strings of a request, checks its flags,
--                 and calls one of the operations below; its reply says why a request failed. Broker.Run is
--                 broker_run, which serves one client after another until broker_stop has set its flag.
--   Client        mbroker/client/main.c: parse_arguments reads the command line from its end, and Client.Prepare
--                 makes the request that the broker reads. Client.Commands is handle_create, handle_destroy and
--                 main: programs that may fail and that keep a list of what they did to the outside, Client.Run.
--   Mrepo         mbroker/client/mrepo.c, an older form of the same client in one function.
--   Mount         mbroker/daemon/mount_ops.c and umount_ops.c. Mount.Lower is handle_custom_lowerdir, Mount.Create
--                 is mount_sandbox with save_mount_record, Mount.Destroy is umount_sandbox, Mount.Escapes reads the
--                 strings of a record back. They change a World:
--                 the mounts, the tracked table, the exports file, the saved records, the jobs started in
--                 threads, and errno. What the system answers is a record, Env, of functions of the path.
--   Recover       restore_mounts of mount_ops.c: calls mount_sandbox for each saved record, and writes a report.
--   MountInfo     mbroker/daemon/mountinfo.c: the table of tracked mounts as a list of slots, with one function
--                 per call, and the reader of /proc/self/mountinfo over the bytes of the file.
--   Exports       ensure_overlay_export of mount_ops.c and remove_overlay_export of umount_ops.c, over the bytes
--                 of /etc/exports; each step that may fail has its answer as an argument.
--   DaemonConfig  mbroker/daemon/daemon_config.c: config_load over the bytes of the file.
--   TaskQueue     mbroker/include/task_queue.h, and the two queues like it of post_mount.c: the array and the
--                 claims of the worker threads, which interleave as a step relation.
--   Promote       mbroker/daemon/promote.c, Ownership mbroker/daemon/ownership.c, Whiteout the whiteouts of
--                 mbroker/daemon/post_mount.c: each walks a tree of FileTree, or splits it into tasks of a TaskQueue.
--   Monitor       mbroker/daemon/monitor.c: the health check of the tracked sandboxes, and its thread as a step
--                 from one read of its flag to the next.
--   PostMount     the chown after a mount of mbroker/daemon/post_mount.c, from its request to each lchown.
--   Detached      the starts of the threads for a removal, a promotion and a change of owner, in umount_ops.c,
--                 promote.c and ownership.c.
--   Removal       remove_dir_recursive of mbroker/daemon/umount_ops.c.
--   MakeDir       mkdir_p of mbroker/daemon/util.c.
--   Frames        mbroker/daemon/model_client.c: the messages to the model server and from it, and model_rpc.
--   Model         the calls of model_client.c: the requests as JSON values, and how the answers are read.
--                 Model.Choice is the choice of an NFS server, which Mount takes as an answer of Env.
--   CString       the string routines of the C library that they call; Prelude what all parts share.
--
-- Conventions. A string is a list of bytes without its NUL, and a copy into a buffer of n bytes is `fit n`,
-- which keeps n - 1 of them. Numbers are natural; an int does not overflow in the model. A status is the size of
-- the negative errno that the C function returns, or 0. All recursion is on the data; the two loops with a
-- bound of their own take it as fuel, and reach their end within it: the 16 passes of
-- cleanup_custom_nfs_mounts, and the 10 digits of an int. The two loops that only a flag ends, of broker_run and
-- of monitor_thread, run over the list of what they meet. One request is served after another, as in the daemon;
-- the mutex of the table is therefore not modelled.
--
-- Parameters, for code that is not in the repository: `fnmatch`, `glob`, `strerror`, jansson (the reader of
-- JSON records, json_dumps and json_loads), and the answers of system calls. A directory tree
-- does not change while it is walked. A mount is found by mountinfo_is_mounted where its path has no escaped byte.
--
-- Not modelled: the log, the lock files, the errno that mkdir_p and stat leave behind in a mount that then fails
-- without one, the cast of a uid of 2^31 or more to int in a record, the failures of fork in the client, the mount
-- namespace, the priorities of threads, what the client prints, the Python code of model/, and utils/overlayfs,
-- which is a copy of the Linux file system.
pub mod Prelude
pub mod CString
pub mod MountInfo
pub mod Exports
pub mod DaemonConfig
pub mod TaskQueue
pub mod FileTree
pub mod Frames
pub mod PostMount
pub mod Detached
pub mod Removal
pub mod MakeDir
pub mod Promote
pub mod Whiteout
pub mod Ownership
pub mod Model
pub mod Mount
pub mod Recover
pub mod Broker
pub mod Client
pub mod Monitor
pub mod Mrepo
