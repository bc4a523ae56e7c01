-- ===== src/Privfs/Tests/CliTests.antt =====
-- `ParseArgs` of internal/privfs/cli.go on some command lines.
use maid_cafe.Base.{err, ◌≡◌, refl, ◌⊎◌, false, List, [], ◌∷◌}
use maid_cafe.Base.Text.{Bytes, codes, str_eq, has_prefix, trim_space}
use maid_cafe.Privfs.Cli.{
  Action, no_action, parse_args, any_option, default_config_path, unknown_option,
}
use maid_cafe.Privfs.Cli.Strict.{Spells, parse_args-Spells}

abbrev install_line : List Bytes
install_line =
    codes "--config"
    ∷ codes "/etc/priv.toml"
    ∷ codes "packages"
    ∷ codes "install"
    ∷ codes "vim"
    ∷ []

abbrev install : Action
install = record no_action {
  command = codes "packages";
  verb = codes "install";
  package_name = codes "vim";
  config_path = codes "/etc/priv.toml";
}

late_flag : parse_args (codes "fs" ∷ codes "profiles" ∷ codes "--config" ∷ []) ≡ err unknown_option
unfolding parse_args str_eq has_prefix
late_flag = refl

parse_args-Spells_example :
    (args : List Bytes) × Spells args install
    × (any_option args ≡ false)
    × (((install_line ≡ args) × (install.config_path ≡ default_config_path))
        ⊎ (install_line ≡ codes "--config" ∷ install.config_path ∷ args))
unfolding parse_args str_eq trim_space has_prefix
parse_args-Spells_example = parse_args-Spells install_line install refl
