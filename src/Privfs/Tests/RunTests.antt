-- ===== src/Privfs/Tests/RunTests.antt =====
-- The runs of internal/privfs/cli.go on a small machine.
use maid_cafe.Base.{
  ◌==◌, if◌then◌else◌, length, All, ◌≡◌, refl, ◌≢◌, true, false, none, some, List, [], ◌∷◌, arith,
}
use maid_cafe.Base.Int.{pos}
use maid_cafe.Privfs.Grants.{load_set, lookup_unit, Host}
use maid_cafe.Privfs.Units.{
  build_unit_grant, valid_unit, valid_systemd_verb, systemd_argv, find_executable,
}
use maid_cafe.Privfs.Packages.{
  build_package_grant, valid_package_manager, package_managers, valid_package_verb, package_argv,
  package_command, check_name, takes_name, valid_package_name, manager_binary, package_args,
  add_verb,
}
use maid_cafe.Privfs.Names.{matches}
use maid_cafe.Base.Text.{
  strip_suffix, strip_prefix, all_bytes, mem, to_lower, trim_space, str_eq, codes,
}
use maid_cafe.Privfs.Cli.{Action, no_action}
use maid_cafe.Privfs.Run.{
  Machine, Command, Ended, succeeded, exited, run_systemd, run_packages, exit_refused,
}
use maid_cafe.Privfs.Run.Granted.{
  IsExact, run_external-IsExact, MadeByUnit, run_systemd-MadeByUnit, MadeByManager,
  run_packages-MadeByManager,
}

abbrev helper_host : Host
helper_host = record {
  lstat =
      λ path. some (record { is_symlink = false; is_regular = true; perm = 0o600; owner = some 0 });
  read_config = λ path. some (record {
    profiles = [];
    systemd = (codes "nginx.service", codes "reload" ∷ []) ∷ [];
    packages = some (codes "apt", codes "install" ∷ []);
    firewall = none;
  });
  eval_symlinks = λ path. some path;
  stat_is_dir = λ path. some true;
}

abbrev machine : Machine
machine = record {
  euid = 0;
  host = helper_host;
  stat = λ path. some (record { is_directory = false; perm = 0o755 });
  execute = λ c. succeeded;
}

abbrev reload_nginx : Action
reload_nginx = record no_action {
  command = codes "systemd";
  verb = codes "reload";
  unit = codes "nginx.service";
}

abbrev install_vim : Action
install_vim = record no_action {
  command = codes "packages";
  verb = codes "install";
  package_name = codes "vim";
}

reloads : (run_systemd machine reload_nginx).code ≡ pos 0
unfolding run_systemd load_set build_unit_grant valid_unit strip_suffix strip_prefix all_bytes
    valid_systemd_verb mem build_package_grant to_lower trim_space valid_package_manager
    package_managers valid_package_verb lookup_unit systemd_argv
reloads = refl

installs : length (run_packages machine install_vim).ran ≡ 1
unfolding run_packages load_set build_unit_grant valid_unit strip_suffix strip_prefix all_bytes
    valid_systemd_verb mem build_package_grant to_lower trim_space valid_package_manager
    package_managers valid_package_verb package_argv package_command check_name takes_name
    valid_package_name matches manager_binary package_args str_eq add_verb find_executable
installs = refl

stops_refused :
    (run_systemd machine (record reload_nginx { verb = codes "stop" })).code ≡ exit_refused
unfolding run_systemd load_set build_unit_grant valid_unit strip_suffix strip_prefix all_bytes
    valid_systemd_verb mem build_package_grant to_lower trim_space valid_package_manager
    package_managers valid_package_verb lookup_unit systemd_argv
stops_refused = refl

run_systemd-MadeByUnit_example :
    All (MadeByUnit machine reload_nginx) (run_systemd machine reload_nginx).ran
run_systemd-MadeByUnit_example = run_systemd-MadeByUnit machine reload_nginx

run_packages-MadeByManager_example :
    All (MadeByManager machine install_vim) (run_packages machine install_vim).ran
run_packages-MadeByManager_example = run_packages-MadeByManager machine install_vim

abbrev two_commands : List Command
two_commands =
    record { argv = codes "a" ∷ []; extra_env = [] }
    ∷ record { argv = codes "b" ∷ []; extra_env = [] }
    ∷ []

-- the commands with one argument succeed, the others fail with the code 3
abbrev ends : Command → Ended
ends c = if length c.argv == 1 then succeeded else exited (pos 3)

never_zero : (c : Command) → ends c ≢ exited (pos 0)
never_zero c e = ground arith

run_external-IsExact_example : IsExact ends (codes "allow") two_commands
run_external-IsExact_example = run_external-IsExact ends (codes "allow") two_commands never_zero
