-- ===== src/Privfs/Cli.antt =====
-- The command line of internal/privfs/cli.go: `ParseArgs`.
pub mod Strict
use maid_cafe.Base.{
  ltb, leb, ◌==◌, if◌then◌else◌, ltb→lt, leb→le, ==_iff, Bool-cases, &&_split, length, get_elem?,
  take, drop, All, filter, length-append, length-drop, drop-append, drop-drop, take-append-drop,
  All-append, Result, ok, err, ◌>>=◌, ◌>>◌, guard, Option-cases, Result-cases, ℕ, zero, suc, ◌+◌,
  ◌-◌, ◌*◌, ◌/◌, ◌%◌, ◌^◌, ◌≤◌, ◌<◌, ◌≡◌, refl, sym, ap, ◌∙◌, ◌≢◌, ◌↔◌, ◌⊎◌, inl, inr, Bool, true,
  false, not, ◌&&◌, ◌||◌, Option, none, some, List, [], ◌∷◌, ◌++◌, map, append-nil, append_assoc,
  arith,
}
use maid_cafe.Base.Text.{Bytes, codes, str_eq, trim_space, has_prefix}
use maid_cafe.Privfs.Units.{valid_systemd_verb}

-- `Action`
pub record Action : Type 0 where
  pub command : Bytes
  pub verb : Bytes
  pub profile : Bytes
  pub rel : Bytes
  pub mode : Bytes
  pub unit : Bytes
  pub package_name : Bytes
  pub port : Bytes
  pub protocol : Bytes
  pub source : Bytes
  pub rule_action : Bytes
  pub config_path : Bytes
  pub user : Bytes

pub data UsageError : Type 0 where
  command_required config_path_required unknown_option unknown_command : UsageError
  wrong_count operation_required unknown_operation empty_operand unknown_verb : UsageError

-- `DefaultConfigPath`
abbrev pub default_config_path : Bytes
default_config_path = codes "/etc/maidkit/priv.toml"

abbrev pub no_action : Action
no_action = record {
  command = [];
  verb = [];
  profile = [];
  rel = [];
  mode = [];
  unit = [];
  package_name = [];
  port = [];
  protocol = [];
  source = [];
  rule_action = [];
  config_path = default_config_path;
  user = [];
}

-- `strings.TrimSpace(s) == ""`
unfoldable pub blank : Bytes → Bool
blank s = str_eq (trim_space s) []

-- whether an argument begins with a dash, for some argument
unfoldable pub any_option : List Bytes → Bool
any_option [] = false
any_option (arg ∷ args) = has_prefix arg (codes "-") || any_option args

-- the two tests that end the forms of `fs` with a profile
unfoldable pub with_operands : Action → Result UsageError Action
unfolding blank
with_operands a = do guard (blank a.profile) empty_operand; guard (blank a.rel) empty_operand; ok a

-- `fs`, on the arguments behind it
unfoldable pub parse_fs : Action → List Bytes → Result UsageError Action
unfolding with_operands
parse_fs a [] = err operation_required
parse_fs a (verb ∷ args) =
    if str_eq verb (codes "profiles")
    then elim args [ [] ↦ ok (record a { verb = verb }) | x ∷ xs ↦ err wrong_count ]
    else if str_eq verb (codes "write") || str_eq verb (codes "mkdir")
    then elim args [
      | profile ∷ rel ∷ mode ∷ [] ↦
          with_operands (record a { verb = verb; profile = profile; rel = rel; mode = mode })
      | _ ↦ err wrong_count
    ]
    else if str_eq verb (codes "remove")
    then elim args [
      | profile ∷ rel ∷ [] ↦ with_operands (record a { verb = verb; profile = profile; rel = rel })
      | _ ↦ err wrong_count
    ]
    else err unknown_operation

-- `systemd`
unfoldable pub parse_systemd : Action → List Bytes → Result UsageError Action
unfolding blank
parse_systemd a (verb ∷ unit ∷ []) = do
  guard (blank unit) empty_operand
  guard (not (valid_systemd_verb verb)) unknown_verb
  ok (record a { verb = verb; unit = unit })
parse_systemd a _ = err wrong_count

-- `packages`
unfoldable pub parse_packages : Action → List Bytes → Result UsageError Action
unfolding blank
parse_packages a [] = err operation_required
parse_packages a (verb ∷ args) =
    if str_eq verb (codes "refresh") || str_eq verb (codes "upgrade")
    then elim args [ [] ↦ ok (record a { verb = verb }) | x ∷ xs ↦ err wrong_count ]
    else if str_eq verb (codes "install") || str_eq verb (codes "remove")
    then elim args [
      | name ∷ [] ↦
          if blank name
          then err empty_operand
          else ok (record a { verb = verb; package_name = name })
      | _ ↦ err wrong_count
    ]
    else err unknown_operation

-- `firewall`
unfoldable pub parse_firewall : Action → List Bytes → Result UsageError Action
parse_firewall a [] = err operation_required
parse_firewall a (verb ∷ args) =
    if str_eq verb (codes "enable") || str_eq verb (codes "disable")
    then elim args [ [] ↦ ok (record a { verb = verb }) | x ∷ xs ↦ err wrong_count ]
    else if str_eq verb (codes "allow") || str_eq verb (codes "deny")
    then elim args [
      | port ∷ protocol ∷ source ∷ [] ↦
          ok (record a { verb = verb; port = port; protocol = protocol; source = source })
      | _ ↦ err wrong_count
    ]
    else if str_eq verb (codes "delete")
    then elim args [
      | action ∷ port ∷ protocol ∷ source ∷ [] ↦ ok (record a {
        verb = verb;
        rule_action = action;
        port = port;
        protocol = protocol;
        source = source;
      })
      | _ ↦ err wrong_count
    ]
    else err unknown_operation

-- `sudoers`
unfoldable pub parse_sudoers : Action → List Bytes → Result UsageError Action
unfolding blank
parse_sudoers a [] = ok (record a { user = codes "maidcafe" })
parse_sudoers a (user ∷ []) =
    if blank user then err empty_operand else ok (record a { user = user })
parse_sudoers a _ = err wrong_count

-- the `switch` on the command
unfoldable pub parse_command : Action → List Bytes → Result UsageError Action
unfolding parse_fs parse_systemd parse_packages parse_firewall parse_sudoers
parse_command a [] = err command_required
parse_command a (command ∷ args) =
    let a' : Action = record a { command = command } in
    if str_eq command (codes "version")
    then elim args [ [] ↦ ok a' | x ∷ xs ↦ err wrong_count ]
    else if str_eq command (codes "sudoers")
    then parse_sudoers a' args
    else if str_eq command (codes "fs")
    then parse_fs a' args
    else if str_eq command (codes "systemd")
    then parse_systemd a' args
    else if str_eq command (codes "packages")
    then parse_packages a' args
    else if str_eq command (codes "firewall")
    then parse_firewall a' args
    else err unknown_command

-- the check of all arguments that precedes the `switch`
unfoldable pub parse_plain : Action → List Bytes → Result UsageError Action
unfolding any_option parse_command
parse_plain a args = if any_option args then err unknown_option else parse_command a args

-- what follows `--config`
unfoldable pub parse_config : List Bytes → Result UsageError Action
unfolding blank parse_plain
parse_config [] = err config_path_required
parse_config (path ∷ args) = if blank path then err config_path_required else elim args [
  | [] ↦ err command_required
  | c ∷ cs ↦ parse_plain (record no_action { config_path = path }) (c ∷ cs)
]

-- `ParseArgs`
unfoldable pub parse_args : List Bytes → Result UsageError Action
unfolding parse_config parse_plain
parse_args [] = err command_required
parse_args (arg ∷ args) =
    if str_eq arg (codes "--config") then parse_config args else parse_plain no_action (arg ∷ args)
