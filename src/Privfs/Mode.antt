-- ===== src/Privfs/Mode.antt =====
-- File modes of internal/privfs/privfs.go: the permitted set, `ParseMode`, and `checkMode`.
pub mod Laws
use maid_cafe.Base.{
  ℕ, ◌+◌, ◌-◌, ◌*◌, ◌/◌, ◌%◌, ◌^◌, Bool, true, false, ◌&&◌, ◌||◌, not, List, [], ◌∷◌, ltb, ◌==◌,
  if◌then◌else◌, length, Result, ok, err, ◌>>=◌, ◌>>◌, guard,
}
use maid_cafe.Base.Text.{Bytes, trim_space, has_prefix}

pub data ModeError : Type 0 where
  bad_length no_leading_zero not_octal out_of_range not_permitted not_granted : ModeError

unfoldable pub mode_mem : ℕ → List ℕ → Bool
mode_mem m [] = false
mode_mem m (n ∷ ns) = (m == n) || mode_mem m ns

-- `allowedModeSet`
abbrev pub allowed_mode_set : List ℕ
allowed_mode_set = 0o600 ∷ 0o640 ∷ 0o644 ∷ 0o700 ∷ 0o750 ∷ 0o755 ∷ []

unfoldable pub allowed_mode : ℕ → Bool
unfolding mode_mem
allowed_mode m = mode_mem m allowed_mode_set

-- the loop of `parseOctal`; the shift is on a uint32
octal_loop : Bytes → ℕ → Result ModeError ℕ
octal_loop [] value = ok value
octal_loop (digit ∷ text) value =
    let rest = octal_loop text (value * 8 % 2 ^ 32 + (digit - b'0')) in
    if ltb digit b'0' || ltb b'7' digit then err not_octal else rest

-- `parseOctal`
unfoldable pub parse_octal : Bytes → Result ModeError ℕ
unfolding octal_loop
parse_octal text = do value ← octal_loop text 0; guard (ltb 0o7777 value) out_of_range; ok value

-- `ParseMode`
unfoldable pub parse_mode : Bytes → Result ModeError ℕ
unfolding parse_octal
parse_mode raw = do
  let text = trim_space raw
  guard (not (length text == 3) && not (length text == 4)) bad_length
  guard ((length text == 4) && not (has_prefix text (b'0' ∷ []))) no_leading_zero
  mode ← parse_octal text
  guard (not (allowed_mode mode)) not_permitted
  ok mode

-- `checkMode`, on the modes that a profile grants
unfoldable pub check_mode : List ℕ → ℕ → Result ModeError (Unit {0})
check_mode granted mode = do
  guard (not (allowed_mode mode)) not_permitted
  guard (not (mode_mem mode granted)) not_granted
  ok tt

-- `fmt.Sprintf("%04o", mode)`, for a mode of at most four octal digits: how the daemon passes a mode
unfoldable pub format_mode : ℕ → Bytes
format_mode m =
    (b'0' + m / 512 % 8) ∷ (b'0' + m / 64 % 8) ∷ (b'0' + m / 8 % 8) ∷ (b'0' + m % 8) ∷ []
