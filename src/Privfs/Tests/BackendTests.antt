-- ===== src/Privfs/Tests/BackendTests.antt =====
-- `runFirewall` of internal/privfs/cli.go on a machine with firewalld.
use maid_cafe.Base.{All, true, false, none, some, [], ◌∷◌, length, ◌≡◌, refl}
use maid_cafe.Base.Text.{mem, to_lower, trim_space, split, str_eq, cut, codes}
use maid_cafe.Privfs.Grants.{load_set, Host}
use maid_cafe.Privfs.Firewall.{
  build_firewall_grant, valid_firewall_backend, valid_firewall_verb, parse_firewall_rule,
  port_pattern, bounds_fit, firewall_commands,
}
use maid_cafe.Privfs.Cli.{Action, no_action}
use maid_cafe.Privfs.Run.{Machine, succeeded, run_firewall}
use maid_cafe.Privfs.Run.Backend.{MadeByBackend, run_firewall-MadeByBackend}
use maid_cafe.Privfs.Names.{matches}
use maid_cafe.Privfs.Packages.{add_verb}
use maid_cafe.Privfs.Units.{find_executable}

abbrev firewalld_host : Host
firewalld_host = record {
  lstat =
      λ path. some (record { is_symlink = false; is_regular = true; perm = 0o600; owner = some 0 });
  read_config = λ path. some (record {
    profiles = [];
    systemd = [];
    packages = none;
    firewall = some (codes "firewalld", codes "deny" ∷ []);
  });
  eval_symlinks = λ path. some path;
  stat_is_dir = λ path. some true;
}

abbrev firewalld_machine : Machine
firewalld_machine = record {
  euid = 0;
  host = firewalld_host;
  stat = λ path. some (record { is_directory = false; perm = 0o755 });
  execute = λ c. succeeded;
}

abbrev deny_ssh : Action
deny_ssh = record no_action {
  command = codes "firewall";
  verb = codes "deny";
  port = codes "22";
  protocol = codes "tcp";
  source = codes "any";
}

denies : length (run_firewall firewalld_machine deny_ssh).ran ≡ 3
unfolding run_firewall load_set build_firewall_grant valid_firewall_backend valid_firewall_verb mem
    to_lower trim_space parse_firewall_rule port_pattern bounds_fit split firewall_commands str_eq
    cut matches add_verb find_executable
denies = refl

run_firewall-MadeByBackend_example :
    All (MadeByBackend firewalld_machine deny_ssh) (run_firewall firewalld_machine deny_ssh).ran
run_firewall-MadeByBackend_example = run_firewall-MadeByBackend firewalld_machine deny_ssh
