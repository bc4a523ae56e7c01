-- ===== src/Privfs/Run.antt =====
-- The runs of commands of internal/privfs/cli.go: `runSystemd`, `runPackages`, `runFirewall` and
-- `runExternal`. Of an audit entry its verb and its outcome are kept.
pub mod Granted
pub mod Backend
use maid_cafe.Base.{
  ltb, leb, ◌==◌, if◌then◌else◌, ltb→lt, leb→le, ==_iff, Bool-cases, &&_split, length, get_elem?,
  take, drop, All, filter, length-append, length-drop, drop-append, drop-drop, take-append-drop,
  All-append, Result, ok, err, ◌>>=◌, ◌>>◌, guard, Option-cases, Result-cases, ℕ, zero, suc, ◌+◌,
  ◌-◌, ◌*◌, ◌/◌, ◌%◌, ◌^◌, ◌≤◌, ◌<◌, ◌≡◌, refl, sym, ap, ◌∙◌, ◌≢◌, ◌↔◌, ◌⊎◌, inl, inr, Bool, true,
  false, not, ◌&&◌, ◌||◌, Option, none, some, List, [], ◌∷◌, ◌++◌, map, append-nil, append_assoc,
  arith,
}
use maid_cafe.Base.Int.{ℤ, pos, negsuc}
use maid_cafe.Base.Text.{Bytes, codes, str_eq}
use maid_cafe.Privfs.Units.{
  UnitError, find_executable, not_found, systemctl_paths, systemd_argv, FileStat,
}
use maid_cafe.Privfs.Packages.{package_argv, package_env}
use maid_cafe.Privfs.Firewall.{FirewallRule, FirewallError, parse_firewall_rule, firewall_commands}
use maid_cafe.Privfs.Grants.{Host, GrantSet, load_set, lookup_unit}
use maid_cafe.Privfs.Cli.{Action}

-- the exit codes of the helper
abbrev pub exit_ok : ℤ
exit_ok = pos 0

abbrev pub exit_refused : ℤ
exit_refused = pos 3

abbrev pub exit_io : ℤ
exit_io = pos 4

abbrev pub exit_not_root : ℤ
exit_not_root = pos 5

abbrev pub exit_config_bad : ℤ
exit_config_bad = pos 6

pub record Entry : Type 0 where
  pub verb : Bytes
  pub fine : Bool

-- how a command ends: with success, with a code, or it cannot be run at all
pub data Ended : Type 0 where
  succeeded : Ended
  exited : ℤ → Ended
  not_run : Ended

-- a command: its arguments, and what is added to its environment
pub record Command : Type 0 where
  pub argv : List Bytes
  pub extra_env : List Bytes

-- what an invocation comes to: the exit code, the commands that were started, the audit entries
pub record Outcome : Type 0 where
  pub code : ℤ
  pub ran : List Command
  pub entries : List Entry

-- What the machine is to the helper: who runs it, what the file system answers, of
-- the grant file and of the executables, and how a command ends.
pub record Machine : Type 0 where
  pub euid : ℕ
  pub host : Host
  pub stat : Bytes → Option FileStat
  pub execute : Command → Ended

-- `externalExitCode`: the codes from `ExitUsage` to `ExitConfigBad` are kept for the helper
unfoldable pub external_exit_code : Ended → ℤ
external_exit_code succeeded = exit_ok
external_exit_code not_run = exit_io
external_exit_code (exited (negsuc n)) = negsuc n
external_exit_code (exited (pos n)) = if leb 2 n && leb n 6 then exit_io else pos n

-- an outcome with an audit entry and no command
abbrev pub stopped : ℤ → Bytes → Outcome
stopped code verb = record {
  code = code;
  ran = [];
  entries = record { verb = verb; fine = false } ∷ [];
}

-- `runExternal`
unfoldable pub run_external : (Command → Ended) → Bytes → List Command → Outcome
unfolding external_exit_code
run_external execute verb [] = record {
  code = exit_ok;
  ran = [];
  entries = record { verb = verb; fine = true } ∷ [];
}
run_external execute verb (command ∷ rest) =
    let later = run_external execute verb rest in
    elim (execute command) [
      | succeeded ↦ record later { ran = command ∷ later.ran }
      | not_run ↦ record (stopped exit_io verb) { ran = command ∷ [] }
      | exited n ↦ record (stopped (external_exit_code (exited n)) verb) { ran = command ∷ [] }
    ]

-- the check of the account and the loading of the grant file, which every run begins with
unfoldable pub with_grants : Machine → Action → (GrantSet → Outcome) → Outcome
with_grants m action continue =
    if not (m.euid == 0)
    then record { code = exit_not_root; ran = []; entries = [] }
    else elim (load_set m.host action.config_path true) [
      | err e ↦ stopped exit_config_bad action.verb
      | ok set ↦ continue set
    ]

-- `runSystemd`
unfoldable pub run_systemd : Machine → Action → Outcome
unfolding with_grants run_external
run_systemd m action = with_grants m action λ set. elim (lookup_unit set action.unit) [
  | err e ↦ stopped exit_refused action.verb
  | ok grant ↦ elim (systemd_argv m.stat grant action.verb) [
    | err e ↦ stopped exit_refused action.verb
    | ok argv ↦ run_external m.execute action.verb (record { argv = argv; extra_env = [] } ∷ [])
  ]
]

-- `managerPaths`
unfoldable pub manager_paths : Bytes → List Bytes
manager_paths binary =
    if str_eq binary (codes "apt-get")
    then codes "/usr/bin/apt-get" ∷ codes "/bin/apt-get" ∷ []
    else if str_eq binary (codes "dnf")
    then codes "/usr/bin/dnf" ∷ codes "/bin/dnf" ∷ []
    else if str_eq binary (codes "yum")
    then codes "/usr/bin/yum" ∷ codes "/bin/yum" ∷ []
    else if str_eq binary (codes "pacman")
    then codes "/usr/bin/pacman" ∷ codes "/bin/pacman" ∷ []
    else if str_eq binary (codes "zypper")
    then codes "/usr/bin/zypper" ∷ codes "/sbin/zypper" ∷ []
    else if str_eq binary (codes "apk")
    then codes "/sbin/apk" ∷ codes "/usr/sbin/apk" ∷ []
    else if str_eq binary (codes "xbps-install")
    then codes "/usr/bin/xbps-install" ∷ codes "/bin/xbps-install" ∷ []
    else if str_eq binary (codes "xbps-remove")
    then codes "/usr/bin/xbps-remove" ∷ codes "/bin/xbps-remove" ∷ []
    else []

-- `firewallPaths`
unfoldable pub firewall_paths : Bytes → List Bytes
firewall_paths binary =
    if str_eq binary (codes "ufw")
    then codes "/usr/sbin/ufw" ∷ codes "/sbin/ufw" ∷ codes "/usr/bin/ufw" ∷ codes "/bin/ufw" ∷ []
    else if str_eq binary (codes "firewall-cmd")
    then codes "/usr/bin/firewall-cmd" ∷ codes "/bin/firewall-cmd" ∷ []
    else if str_eq binary (codes "systemctl")
    then systemctl_paths
    else []

-- `argv[0] = path`, with the path that `FindManager` or `FindFirewallBinary` gives for it; a binary
-- that the table does not list has no path, which is refused either way
unfoldable pub resolve : Machine → (Bytes → List Bytes) → List Bytes → Result UnitError (List Bytes)
resolve m paths [] = err not_found
resolve m paths (binary ∷ args) = do path ← find_executable m.stat (paths binary); ok (path ∷ args)

-- the loop of `runFirewall`: every binary is found before anything runs
unfoldable pub resolve_all :
    Machine
    → (Bytes → List Bytes)
    → List Bytes
    → List (List Bytes)
    → Result UnitError (List Command)
unfolding resolve
resolve_all m paths extra_env [] = ok []
resolve_all m paths extra_env (argv ∷ rest) = do
  found ← resolve m paths argv
  commands ← resolve_all m paths extra_env rest
  ok (record { argv = found; extra_env = extra_env } ∷ commands)

-- `runPackages`
unfoldable pub run_packages : Machine → Action → Outcome
unfolding with_grants run_external resolve_all manager_paths
run_packages m action = with_grants m action λ set. elim set.packages [
  | none ↦ stopped exit_refused action.verb
  | some grant ↦ elim (package_argv grant action.verb action.package_name) [
    | err e ↦ stopped exit_refused action.verb
    | ok argv ↦ elim (resolve_all m manager_paths (package_env grant.manager) (argv ∷ [])) [
      | err e ↦ stopped exit_refused action.verb
      | ok commands ↦ run_external m.execute action.verb commands
    ]
  ]
]

abbrev pub no_rule : FirewallRule
no_rule = record { action = []; port = []; protocol = []; source = [] }

-- whether a firewall verb takes a rule
unfoldable pub takes_rule : Bytes → Bool
takes_rule verb =
    str_eq verb (codes "allow") || (str_eq verb (codes "deny") || str_eq verb (codes "delete"))

-- the rule of an action, for a verb that takes one
unfoldable pub rule_of : Action → Result FirewallError FirewallRule
unfolding takes_rule
rule_of action =
    if takes_rule action.verb
    then parse_firewall_rule
        (if str_eq action.verb (codes "delete") then action.rule_action else action.verb)
        action.port action.protocol action.source
    else ok no_rule

-- `runFirewall`
unfoldable pub run_firewall : Machine → Action → Outcome
unfolding with_grants run_external resolve_all firewall_paths rule_of
run_firewall m action = with_grants m action λ set. elim set.firewall [
  | none ↦ stopped exit_refused action.verb
  | some grant ↦ elim (rule_of action) [
    | err e ↦ stopped exit_refused action.verb
    | ok rule ↦ elim (firewall_commands grant action.verb rule) [
      | err e ↦ stopped exit_refused action.verb
      | ok argvs ↦ elim (resolve_all m firewall_paths [] argvs) [
        | err e ↦ stopped exit_refused action.verb
        | ok commands ↦ run_external m.execute action.verb commands
      ]
    ]
  ]
]
