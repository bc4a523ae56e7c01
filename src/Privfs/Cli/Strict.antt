-- ===== src/Privfs/Cli/Strict.antt =====
-- That `ParseArgs` accepts nothing beside the documented forms.
use maid_cafe.Base.{
  if◌then◌else◌, ok, ◌≡◌, ◌⊎◌, true, false, ◌||◌, List, [], ◌∷◌, arith, inl, inr, refl, Bool-cases,
  Option, some, some, Option, none, none,
}
use maid_cafe.Base.Text.{Bytes, mem, codes, str_eq, str_eq_iff}
use maid_cafe.Privfs.Units.{valid_systemd_verb}
use maid_cafe.Privfs.Cli.{
  Action, parse_fs, with_operands, parse_systemd, parse_packages, parse_firewall, parse_sudoers,
  parse_command, parse_plain, parse_args, any_option, parse_config, default_config_path, no_action,
}

-- the verbs of `systemd` in the usage text
systemd_words : List Bytes
systemd_words =
    codes "start"
    ∷ codes "stop"
    ∷ codes "restart"
    ∷ codes "reload"
    ∷ codes "enable"
    ∷ codes "disable"
    ∷ []

-- The arguments behind the command, in the order of the usage text. A command or a verb that is not
-- in that text has no form.
pub operands : Action → Option (List Bytes)
operands a =
    if str_eq a.command (codes "version")
    then some []
    else if str_eq a.command (codes "sudoers")
    then some (a.user ∷ [])
    else if str_eq a.command (codes "fs")
    then (if str_eq a.verb (codes "profiles")
        then some (a.verb ∷ [])
        else if str_eq a.verb (codes "write") || str_eq a.verb (codes "mkdir")
        then some (a.verb ∷ a.profile ∷ a.rel ∷ a.mode ∷ [])
        else if str_eq a.verb (codes "remove")
        then some (a.verb ∷ a.profile ∷ a.rel ∷ [])
        else none)
    else if str_eq a.command (codes "systemd")
    then (if mem a.verb systemd_words then some (a.verb ∷ a.unit ∷ []) else none)
    else if str_eq a.command (codes "packages")
    then (if str_eq a.verb (codes "refresh") || str_eq a.verb (codes "upgrade")
        then some (a.verb ∷ [])
        else if str_eq a.verb (codes "install") || str_eq a.verb (codes "remove")
        then some (a.verb ∷ a.package_name ∷ [])
        else none)
    else if str_eq a.command (codes "firewall")
    then (if str_eq a.verb (codes "enable") || str_eq a.verb (codes "disable")
        then some (a.verb ∷ [])
        else if str_eq a.verb (codes "allow") || str_eq a.verb (codes "deny")
        then some (a.verb ∷ a.port ∷ a.protocol ∷ a.source ∷ [])
        else if str_eq a.verb (codes "delete")
        then some (a.verb ∷ a.rule_action ∷ a.port ∷ a.protocol ∷ a.source ∷ [])
        else none)
    else none

-- a command line spells an action: a documented command, and its operands in a documented form,
-- where `sudoers` may leave its account to the default
pub Spells : List Bytes → Action → Type 0
Spells args a =
    ((rest : List Bytes) × (args ≡ a.command ∷ rest) × (operands a ≡ some rest))
    ⊎ ((args ≡ codes "sudoers" ∷ []) × (a.command ≡ codes "sudoers") × (a.user ≡ codes "maidcafe"))

-- what the parser of a command is asked for: operands that spell the action, and the command kept
Kept : Action → List Bytes → Action → Type 0
Kept base args a =
    (operands a ≡ some args) × (a.command ≡ base.command) × (a.config_path ≡ base.config_path)

parse_fs-Kept :
    (base : Action) (args : List Bytes) (a : Action)
    → str_eq base.command (codes "version") ≡ false
    → str_eq base.command (codes "sudoers") ≡ false
    → str_eq base.command (codes "fs") ≡ true
    → parse_fs base args ≡ ok a
    → Kept base args a
unfolding parse_fs with_operands operands Kept
parse_fs-Kept base [] a h1 h2 h3 h = cc
parse_fs-Kept base (v ∷ []) a h1 h2 h3 h = ground arith
parse_fs-Kept base (v ∷ w ∷ []) a h1 h2 h3 h = ground arith
parse_fs-Kept base (v ∷ w ∷ x ∷ []) a h1 h2 h3 h = ground arith
parse_fs-Kept base (v ∷ w ∷ x ∷ y ∷ []) a h1 h2 h3 h = ground arith
parse_fs-Kept base (v ∷ w ∷ x ∷ y ∷ z ∷ rest) a h1 h2 h3 h = ground arith

parse_systemd-Kept :
    (base : Action) (args : List Bytes) (a : Action)
    → str_eq base.command (codes "version") ≡ false
    → str_eq base.command (codes "sudoers") ≡ false
    → str_eq base.command (codes "fs") ≡ false
    → str_eq base.command (codes "systemd") ≡ true
    → parse_systemd base args ≡ ok a
    → Kept base args a
unfolding parse_systemd operands Kept valid_systemd_verb systemd_words
parse_systemd-Kept base [] a h1 h2 h3 h4 h = cc
parse_systemd-Kept base (v ∷ []) a h1 h2 h3 h4 h = cc
parse_systemd-Kept base (v ∷ w ∷ []) a h1 h2 h3 h4 h = ground arith
parse_systemd-Kept base (v ∷ w ∷ x ∷ rest) a h1 h2 h3 h4 h = cc

parse_packages-Kept :
    (base : Action) (args : List Bytes) (a : Action)
    → str_eq base.command (codes "version") ≡ false
    → str_eq base.command (codes "sudoers") ≡ false
    → str_eq base.command (codes "fs") ≡ false
    → str_eq base.command (codes "systemd") ≡ false
    → str_eq base.command (codes "packages") ≡ true
    → parse_packages base args ≡ ok a
    → Kept base args a
unfolding parse_packages operands Kept
parse_packages-Kept base [] a h1 h2 h3 h4 h5 h = cc
parse_packages-Kept base (v ∷ []) a h1 h2 h3 h4 h5 h = ground arith
parse_packages-Kept base (v ∷ w ∷ []) a h1 h2 h3 h4 h5 h = ground arith
parse_packages-Kept base (v ∷ w ∷ x ∷ rest) a h1 h2 h3 h4 h5 h = ground arith

parse_firewall-Kept :
    (base : Action) (args : List Bytes) (a : Action)
    → str_eq base.command (codes "version") ≡ false
    → str_eq base.command (codes "sudoers") ≡ false
    → str_eq base.command (codes "fs") ≡ false
    → str_eq base.command (codes "systemd") ≡ false
    → str_eq base.command (codes "packages") ≡ false
    → str_eq base.command (codes "firewall") ≡ true
    → parse_firewall base args ≡ ok a
    → Kept base args a
unfolding parse_firewall operands Kept
parse_firewall-Kept base [] a h1 h2 h3 h4 h5 h6 h = cc
parse_firewall-Kept base (v ∷ []) a h1 h2 h3 h4 h5 h6 h = ground arith
parse_firewall-Kept base (v ∷ w ∷ []) a h1 h2 h3 h4 h5 h6 h = ground arith
parse_firewall-Kept base (v ∷ w ∷ x ∷ []) a h1 h2 h3 h4 h5 h6 h = ground arith
parse_firewall-Kept base (v ∷ w ∷ x ∷ y ∷ []) a h1 h2 h3 h4 h5 h6 h = ground arith
parse_firewall-Kept base (v ∷ w ∷ x ∷ y ∷ z ∷ []) a h1 h2 h3 h4 h5 h6 h = ground arith
parse_firewall-Kept base (v ∷ w ∷ x ∷ y ∷ z ∷ u ∷ rest) a h1 h2 h3 h4 h5 h6 h = ground arith

-- an accepted command line without `--config`
Plain : Action → List Bytes → Action → Type 0
Plain base args a = Spells args a × (a.config_path ≡ base.config_path)

Plain-cons :
    (base : Action) (c : Bytes) (args : List Bytes) (a : Action)
    → Kept (record base { command = c }) args a
    → Plain base (c ∷ args) a
unfolding Plain Spells Kept
Plain-cons base c args a (words, same, config) = (inl (args, rw same refl, words), config)

sudoers-Plain :
    (base : Action) (c : Bytes) (args : List Bytes) (a : Action)
    → str_eq c (codes "version") ≡ false
    → c ≡ codes "sudoers"
    → str_eq c (codes "sudoers") ≡ true
    → parse_sudoers (record base { command = c }) args ≡ ok a
    → Plain base (c ∷ args) a
unfolding Plain Spells parse_sudoers operands
sudoers-Plain base c [] a h1 e h2 h = (inr (rw e refl, ground arith, ground arith), ground arith)
sudoers-Plain base c (user ∷ []) a h1 e h2 h =
    (inl (user ∷ [], ground arith, ground arith), ground arith)
sudoers-Plain base c (user ∷ x ∷ rest) a h1 e h2 h = cc

version-Plain :
    (base : Action) (c : Bytes) (args : List Bytes) (a : Action)
    → str_eq c (codes "version") ≡ true
    → parse_command base (c ∷ args) ≡ ok a
    → Plain base (c ∷ args) a
unfolding Plain Spells parse_command operands
version-Plain base c [] a e h = (inl ([], ground arith, ground arith), ground arith)
version-Plain base c (x ∷ rest) a e h = cc (rw e at h)

parse_command-Plain :
    (base : Action) (c : Bytes) (args : List Bytes) (a : Action)
    → parse_command base (c ∷ args) ≡ ok a
    → Plain base (c ∷ args) a
unfolding parse_command
parse_command-Plain base c args a h =
    let b : Action = record base { command = c } in
    ground (
      arith,
      version-Plain base c args a,
      sudoers-Plain base c args a,
      str_eq_iff c (codes "sudoers"),
      Plain-cons base c args a,
      parse_fs-Kept b args a,
      parse_systemd-Kept b args a,
      parse_packages-Kept b args a,
      parse_firewall-Kept b args a,
    )

parse_plain-Plain :
    (base : Action) (args : List Bytes) (a : Action)
    → parse_plain base args ≡ ok a
    → Plain base args a × (any_option args ≡ false)
unfolding parse_plain
parse_plain-Plain base [] a h = cc
parse_plain-Plain base (c ∷ args) a h = ground (arith, parse_command-Plain base c args a)

behind_flag :
    (c : Bytes) (args : List Bytes) (a : Action)
    → c ≡ codes "--config"
    → parse_config args ≡ ok a
    → (rest : List Bytes) × Spells rest a
      × (any_option rest ≡ false)
      × (((c ∷ args ≡ rest) × (a.config_path ≡ default_config_path))
          ⊎ (c ∷ args ≡ codes "--config" ∷ a.config_path ∷ rest))
unfolding parse_config Plain
behind_flag c [] a e h = cc
behind_flag c (path ∷ []) a e h = absurd (ground arith)
behind_flag c (path ∷ d ∷ args) a e h =
    let base : Action = record no_action { config_path = path } in
    let plain : parse_plain base (d ∷ args) ≡ ok a = ground arith in
    let ((words, config), dashes) = parse_plain-Plain base (d ∷ args) a plain in
    (d ∷ args, words, dashes, inr (rw (e, config) refl))

-- A command line that `ParseArgs` accepts spells the action: one of the documented commands, and one
-- of its documented verbs with exactly the operands of that verb. It stands alone, with the default
-- profile file, or behind `--config` and the action's profile file; no argument of it begins with a
-- dash.
pub parse_args-Spells :
    (argv : List Bytes) (a : Action)
    → parse_args argv ≡ ok a
    → (args : List Bytes) × Spells args a
      × (any_option args ≡ false)
      × (((argv ≡ args) × (a.config_path ≡ default_config_path))
          ⊎ (argv ≡ codes "--config" ∷ a.config_path ∷ args))
unfolding parse_args parse_config Plain
parse_args-Spells [] a h = cc
parse_args-Spells (c ∷ args) a h = elim (Bool-cases (str_eq c (codes "--config"))) [
  | inl flag ↦ behind_flag c args a ((str_eq_iff c (codes "--config")).0 flag) (rw flag at h)
  | inr plain ↦
      let ((words, config), dashes) = parse_plain-Plain no_action (c ∷ args) a (rw plain at h) in
      (c ∷ args, words, dashes, inl (refl, config))
]
