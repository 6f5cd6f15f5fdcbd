-- ===== src/Client/Examples.antt =====
-- Command lines of mbroker/client/main.c.
use aiomb.Prelude.{
  ◌++◌, List, All, arith, [], ◌∷◌, true, none, some, Text, codes, text_eq, ◌≡◌, refl,
}
use aiomb.CString.{strip_prefix, fgets_all, isspace, trim_left, fit}
use aiomb.Broker.{create, destroy, Reply}
use aiomb.Client.Run.{◌>>=◌, ensure_tmp_log_mode, is_path_mounted}
use aiomb.Client.Commands.{
  time_or, replied, receive, Host, all_bytes, handle_create, with_prebuilt, ended, finish, main,
}
use aiomb.Client.Steps.{commands}
use aiomb.Client.Shell.{PlainAct, handle_create-Plain}
use aiomb.Client.Success.{Created, main-Created}
use aiomb.Client.Cleanup.{finish_runs}
use aiomb.Client.{
  CmdContext, defaults, Parsed, parse_arguments, command_of, parse_options, option_step, checked,
  is_refused, sandbox_path,
}
use aiomb.Client.Accepted.{IsAccepted, parse_arguments-IsAccepted}
use aiomb.Client.Prepare.{Ids, prepare_mount_request, overlayroot_field, lowerdir_field}

abbrev pub arguments : List Text
arguments = codes "create" ∷ codes "sb" ∷ codes "--no-override-uid" ∷ codes "-l" ∷ codes "/l" ∷ []

abbrev parsed : Parsed
parsed = record {
  cmd = create;
  context = record defaults { enable_override_uid = true; custom_lowerdir = some (codes "/l") };
  sandboxname = codes "/home/sb";
}

-- The override is on although the command line turned it off.
parses : parse_arguments (codes "/home") arguments ≡ some parsed
unfolding parse_arguments command_of parse_options option_step checked is_refused sandbox_path
    text_eq
parses = refl

parse_arguments-IsAccepted_example : IsAccepted parsed
parse_arguments-IsAccepted_example =
    parse_arguments-IsAccepted (codes "/home") arguments parsed refl parses

abbrev pub ids : Ids
ids = record { uid = 1000; gid = 100; build_access = none }

-- A daemon that answers every request with success and the name of a prebuilt sandbox.
abbrev pub reply : Reply
reply = record { status = 0; details = []; baas_path = []; prebuild_sb = codes "vol; reboot" }

abbrev pub host : Host
host = record {
  ids = ids;
  log_time = some (codes "20250101_000000");
  first_time = none;
  second_time = none;
  mounts = some (codes "proc /proc proc rw 0 0");
  opens_first = true;
  opens_second = true;
  result = λ cmd. 0;
  exists = λ path. true;
  daemon = λ r. replied reply;
}

abbrev prebuilt_arguments : List Text
prebuilt_arguments = codes "create" ∷ codes "sb" ∷ codes "-pbsb" ∷ codes "vol-1" ∷ []

abbrev prebuilt : CmdContext
prebuilt = record defaults { enable_override_uid = true; prebuild_sb = some (codes "vol-1") }

abbrev prebuilt_parsed : Parsed
prebuilt_parsed = record { cmd = create; context = prebuilt; sandboxname = codes "/home/sb" }

parses_prebuilt : parse_arguments (codes "/home") prebuilt_arguments ≡ some prebuilt_parsed
unfolding parse_arguments command_of parse_options option_step checked is_refused sandbox_path
    text_eq
parses_prebuilt = refl

-- A volume with a byte that a shell reads is refused before any command is run.
refuses_name :
    commands (handle_create host (record prebuilt { prebuild_sb = some (codes "vol;1") }) []).1 ≡ []
unfolding handle_create ◌>>=◌ all_bytes
refuses_name = refl

handle_create-Plain_example : All PlainAct (handle_create host prebuilt []).1
unfolding all_bytes
handle_create-Plain_example = handle_create-Plain host prebuilt refl refl refl

main_ends :
    main host (codes "/home") prebuilt_arguments []
    ≡ (some tt, (main host (codes "/home") prebuilt_arguments []).1)
unfolding main with_prebuilt receive handle_create finish ◌>>=◌ parse_arguments command_of
    parse_options option_step checked is_refused sandbox_path text_eq prepare_mount_request
    overlayroot_field lowerdir_field all_bytes ensure_tmp_log_mode strip_prefix is_path_mounted
    fgets_all isspace trim_left fit
main_ends = refl

main-Created_example :
    Created host prebuilt (codes "vol-1") (main host (codes "/home") prebuilt_arguments []).1
main-Created_example =
    main-Created host (codes "/home") prebuilt_arguments prebuilt_parsed (codes "vol-1") _
      parses_prebuilt refl refl main_ends

finish_runs_example :
    commands (finish host (record prebuilt_parsed { cmd = destroy }) (ended reply) []).1
    ≡ (codes "/volume/baas_devops/bin/baas"
        ++ codes " destroypod -s "
        ++ codes "vol; reboot"
        ++ codes " --skipauth"
        ++ codes " >> /tmp/mrepo_destroypod_"
        ++ codes "vol; reboot"
        ++ codes "_"
        ++ time_or "unknown" host.log_time
        ++ codes ".log 2>&1")
      ∷ []
unfolding fit
finish_runs_example =
    finish_runs host (record prebuilt_parsed { cmd = destroy }) reply (omega arith) (omega arith)
      refl refl refl
