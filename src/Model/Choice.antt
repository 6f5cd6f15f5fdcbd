-- ===== src/Model/Choice.antt =====
-- The choice of an NFS server in handle_custom_lowerdir of mbroker/daemon/mount_ops.c, by the answer of the model
-- server. Mount takes what it chooses as Env.chosen_server.
use aiomb.Prelude.{
  ℕ, List, Bool, false, not, ◌&&◌, Option, none, some, Text, ℤ, pos, negsuc, ◌==◌, ltb, length,
  get_elem?, if◌then◌else◌,
}
use aiomb.DaemonConfig.{DaemonConfig}
use aiomb.Model.{Json, ServerResult}
use aiomb.Model.Calls.{model_select_server}

-- The host of nfs_servers at an index that may be out of range.
unfoldable pub server_at : List Text → ℤ → Option Text
server_at servers (pos i) = if ltb i (length servers) then get_elem? servers i else none
server_at servers (negsuc i) = none

abbrev pub named_server : {R : Type 0} → List Text → Option (ServerResult R) → Option Text
unfolding server_at
named_server servers none = none
named_server servers (some sel) = server_at servers sel.server_index

abbrev pub is_zero : ℤ → Bool
is_zero (pos n) = n == 0
is_zero (negsuc n) = false

unfoldable pub chosen_server :
    {R : Type 0} → R → (Json R → Option (Json R)) → DaemonConfig → Option Text
unfolding server_at
chosen_server {R} nought model_rpc cfg =
    let zeros : ℕ → R = λ i. nought in
    if not (is_zero cfg.ml_enabled) && ltb 1 (length cfg.nfs_servers)
    then named_server cfg.nfs_servers (
        model_select_server nought model_rpc zeros zeros zeros (pos 0) (length cfg.nfs_servers)
          (pos 6))
    else none
