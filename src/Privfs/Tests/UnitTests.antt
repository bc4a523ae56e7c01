-- ===== src/Privfs/Tests/UnitTests.antt =====
-- A systemd grant of internal/privfs/privfs.go.
use maid_cafe.Base.{
  ◌≡◌, refl, true, false, List, [], ◌∷◌, Option, Option, if◌then◌else◌, if◌then◌else◌, some, some,
  none, none,
}
use maid_cafe.Base.Text.{
  Bytes, codes, mem, has_prefix, str_eq, strip_suffix, strip_prefix, all_bytes,
}
use maid_cafe.Privfs.Units.{
  systemctl_paths, build_unit_grant, systemd_argv, UnitGrant, valid_unit, valid_systemd_verb,
  is_executable, FileStat,
}
use maid_cafe.Privfs.Units.Laws.{systemd_argv_sound}

abbrev verbs : List Bytes
verbs = codes "restart" ∷ codes "reload" ∷ []

abbrev nginx : UnitGrant
nginx = record { unit = codes "nginx.service"; verbs = codes "reload" ∷ codes "restart" ∷ [] }

-- the second of the paths is there
abbrev installed : Bytes → Option FileStat
unfolding str_eq
installed path =
    if str_eq path (codes "/bin/systemctl")
    then some (record { is_directory = false; perm = 0o755 })
    else none

abbrev reload_nginx : List Bytes
reload_nginx =
    codes "/bin/systemctl"
    ∷ codes "--no-ask-password"
    ∷ codes "--no-pager"
    ∷ codes "reload"
    ∷ codes "--"
    ∷ codes "nginx.service"
    ∷ []

systemd_argv_sound_example :
    (mem (codes "reload") verbs ≡ true)
    × (has_prefix (codes "nginx.service") (codes "-") ≡ false)
    × (path : Bytes) × (mem path systemctl_paths ≡ true)
    × (is_executable (installed path) ≡ true)
    × (reload_nginx
        ≡ path
          ∷ codes "--no-ask-password"
          ∷ codes "--no-pager"
          ∷ codes "reload"
          ∷ codes "--"
          ∷ codes "nginx.service"
          ∷ [])
unfolding build_unit_grant systemd_argv valid_unit strip_suffix strip_prefix all_bytes
    valid_systemd_verb mem
systemd_argv_sound_example =
    systemd_argv_sound installed (codes "nginx.service") verbs nginx (codes "reload") reload_nginx
      refl refl
