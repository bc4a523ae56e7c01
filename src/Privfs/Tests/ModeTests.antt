-- ===== src/Privfs/Tests/ModeTests.antt =====
-- `ParseMode` of internal/privfs/privfs.go on some texts.
use maid_cafe.Base.{◌≡◌, refl, ok, err, true, ◌<◌, ◌%◌, ◌/◌, ◌↔◌, arith}
use maid_cafe.Base.Text.{codes, trim_space, has_prefix}
use maid_cafe.Privfs.Mode.{parse_mode, format_mode, allowed_mode, not_permitted}
use maid_cafe.Privfs.Mode.Laws.{parse_mode_safe, parse_mode-format_mode}

world_writable : parse_mode (codes "0666") ≡ err not_permitted
unfolding parse_mode trim_space has_prefix allowed_mode
world_writable = refl

parse_mode_safe_example :
    (allowed_mode 0o640 ≡ true) × (0o640 < 0o1000) × (0o640 / 0o20 % 2 ≡ 0) × (0o640 / 0o2 % 2 ≡ 0)
unfolding parse_mode trim_space allowed_mode
parse_mode_safe_example = parse_mode_safe (codes " 640") 0o640 refl

parse_mode-format_mode_example :
    (parse_mode (format_mode 0o644) ≡ ok 0o644) ↔ (allowed_mode 0o644 ≡ true)
parse_mode-format_mode_example = parse_mode-format_mode 0o644 (omega arith)
