-- ===== src/Mrepo/Examples.antt =====
-- Command lines of mbroker/client/mrepo.c.
use aiomb.Prelude.{[], ◌∷◌, some, codes, text_eq, ◌≡◌, refl}
use aiomb.Broker.{create, destroy}
use aiomb.CString.{has_byte}
use aiomb.Client.{command_of, sandbox_path, defaults}
use aiomb.Client.Prepare.{filled, overlayroot_field, lowerdir_field}
use aiomb.Client.Run.{sent, ◌>>=◌}
use aiomb.Client.Commands
use aiomb.Client.Examples.{host, arguments}
use aiomb.Mrepo.{main, run_command, finish, parse_options, option_step, is_refused}
use aiomb.Mrepo.Rules.{as_mrepo}
use aiomb.Mrepo.Equal.{main-Client}

main-Client_example :
    main host (codes "/home") (codes "destroy" ∷ codes "sb" ∷ []) []
    ≡ as_mrepo destroy (Commands.main host (codes "/home") (codes "destroy" ∷ codes "sb" ∷ []) [])
unfolding command_of text_eq
main-Client_example =
    main-Client host (codes "/home") (codes "destroy") (codes "sb" ∷ []) destroy refl (refl, tt)

-- Unlike main.c, a create with --no-override-uid leaves the override off.
keeps_override : main host (codes "/home") arguments [] ≡ (
  some tt,
  sent (
        filled host.ids
          (record {
            cmd = create;
            context = record defaults { custom_lowerdir = some (codes "/l") };
            sandboxname = codes "/home/sb";
          })
          []
          (codes "/l"))
      ∷ [],
)
unfolding main run_command finish parse_options option_step is_refused ◌>>=◌ command_of sandbox_path
    text_eq overlayroot_field lowerdir_field has_byte Commands.receive
keeps_override = refl
