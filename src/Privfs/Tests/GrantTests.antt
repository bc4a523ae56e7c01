-- ===== src/Privfs/Tests/GrantTests.antt =====
-- `LoadSet` of internal/privfs/privfs.go on a small grant file.
use maid_cafe.Base.{All, ◌≡◌, refl, true, false, none, some, [], ◌∷◌}
use maid_cafe.Base.Text.{codes, str_eq, trim_space, strip_suffix, mem}
use maid_cafe.Privfs.Files.{Profile}
use maid_cafe.Privfs.Units.{UnitGrant, build_unit_grant, valid_unit, valid_systemd_verb}
use maid_cafe.Privfs.Grants.{
  Host, FileInfo, FileConfig, GrantSet, load_set, grants_nothing, valid_profile_name,
}
use maid_cafe.Privfs.Grants.Trust.{IsProfile, IsUnit, IsGuarded, OneEach, load_set_sound}
use maid_cafe.Privfs.Names.{matches}
use maid_cafe.Base.Filepath.{is_abs, clean}
use maid_cafe.Privfs.Mode.{parse_mode, allowed_mode}

abbrev guarded_file : FileInfo
guarded_file = record { is_symlink = false; is_regular = true; perm = 0o644; owner = some 0 }

abbrev written : FileConfig
written = record {
  profiles =
      record { name = codes "site"; path = codes "/srv/site"; modes = codes "0644" ∷ [] } ∷ [];
  systemd = (codes "nginx.service", codes "reload" ∷ []) ∷ [];
  packages = none;
  firewall = none;
}

abbrev small_host : Host
small_host = record {
  lstat = λ path. some guarded_file;
  read_config = λ path. some written;
  eval_symlinks = λ path. some path;
  stat_is_dir = λ path. some true;
}

abbrev site : Profile
site = record { name = codes "site"; path = codes "/srv/site"; modes = 0o644 ∷ [] }

abbrev nginx : UnitGrant
nginx = record { unit = codes "nginx.service"; verbs = codes "reload" ∷ [] }

abbrev loaded : GrantSet
loaded = record {
  by_name = (codes "site", site) ∷ [];
  units = (codes "nginx.service", nginx) ∷ [];
  packages = none;
  firewall = none;
}

load_set_sound_example :
    ((info : FileInfo) × (small_host.lstat (codes "/etc/maidkit/priv.toml") ≡ some info)
      × IsGuarded true info)
    × (All (λ e. IsProfile small_host e.0 e.1) loaded.by_name × OneEach loaded.by_name)
    × (All (λ e. IsUnit e.0 e.1) loaded.units × OneEach loaded.units)
    × (grants_nothing loaded ≡ false)
unfolding load_set valid_profile_name matches is_abs str_eq clean parse_mode trim_space allowed_mode
    build_unit_grant valid_unit strip_suffix valid_systemd_verb mem
load_set_sound_example = load_set_sound small_host (codes "/etc/maidkit/priv.toml") true loaded refl
