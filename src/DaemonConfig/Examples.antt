-- ===== src/DaemonConfig/Examples.antt =====
-- daemon_config.c on a small file.
use aiomb.Prelude.{pos, text_eq, ◌≡◌, refl, [], ◌∷◌, ◌++◌, true, some, Text, codes}
use aiomb.CString.{fit}
use aiomb.DaemonConfig.{
  config_load, default_socket, assign, atoi, parse_post_mount_chown_dirs, parse_nfs_servers,
}
use aiomb.DaemonConfig.Bounds.{IsValid, config_load-IsValid}

abbrev file : Text
file =
    codes "# mrepod"
    ++ 10
      ∷ (codes " overlayroot = /ov "
          ++ 10
            ∷ (codes "ml_enabled=1"
                ++ 10
                  ∷ (codes "post_mount_chown_dirs = out, /etc, a/../b , gen"
                      ++ 10 ∷ (codes "nfs_servers=n1,,n2" ++ 10 ∷ []))))

loads_file : config_load (some file) ≡ (
  record {
    overlayroot = codes "/ov";
    post_mount_chown_dirs = codes "out" ∷ codes "gen" ∷ [];
    post_mount_whiteout_dirs = [];
    ml_enabled = pos 1;
    model_socket = default_socket;
    nfs_servers = codes "n1" ∷ codes "n2" ∷ [];
  },
  true,
)
unfolding config_load assign fit text_eq parse_post_mount_chown_dirs parse_nfs_servers atoi
loads_file = refl

config_load-IsValid_example : IsValid (config_load (some file)).0
config_load-IsValid_example = config_load-IsValid (some file)
