-- ===== src/Base/TextTests.antt =====
-- The string functions on small inputs.
use mathlib.Core.Path.{◌≡◌, refl}
use mathlib.Core.Option.{some}
use mathlib.Core.List.{[], ◌∷◌}
use maid_cafe.Base.Text.{codes, trim_space, to_lower, cut, cut_last, split, join}

trims : trim_space (codes " \tab c\n") ≡ codes "ab c"
unfolding trim_space
trims = refl

lowers : to_lower (codes "AbZ9") ≡ codes "abz9"
unfolding to_lower
lowers = refl

lowers_kelvin : to_lower (b'a' ∷ b'P' ∷ 0xe2 ∷ 0x84 ∷ 0xaa ∷ []) ≡ codes "apk"
unfolding to_lower
lowers_kelvin = refl

cuts : cut b':' (codes "a:b:c") ≡ some (codes "a", codes "b:c")
unfolding cut
cuts = refl

cuts_last : cut_last b':' (codes "a:b:c") ≡ some (codes "a:b", codes "c")
unfolding cut_last
cuts_last = refl

splits : split b':' (codes "a::c") ≡ codes "a" ∷ [] ∷ codes "c" ∷ []
unfolding split
splits = refl

joins : join (codes ", ") (codes "a" ∷ codes "b" ∷ []) ≡ codes "a, b"
unfolding join
joins = refl
