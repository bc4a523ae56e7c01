-- ===== src/Base/Text/Graphic.antt =====
-- Texts of graphic ASCII characters, which have no space to trim.
use maid_cafe.Base.{
  leb, ◌==◌, length, ℕ, zero, suc, ◌≡◌, refl, Bool, true, false, not, ◌&&◌, none, List, [], ◌∷◌,
  ◌++◌, map, arith,
}
use mathlib.Core.List.{reverse}
use maid_cafe.Base.Text.{
  Bytes, all_bytes, spaces, first_prefix, trim_front, trim_space, strip_prefix, reverse-reverse,
  reverse-append,
}

-- a character of ASCII that is neither a space nor a control
abbrev pub is_graphic : ℕ → Bool
is_graphic c = leb 0x21 c && leb c 0x7e

-- the other characters at the front of a prefix
starts_foreign : Bytes → Bool
starts_foreign [] = false
starts_foreign (c ∷ s) = not (is_graphic c)

all_foreign : List Bytes → Bool
unfolding starts_foreign
all_foreign [] = true
all_foreign (p ∷ ps) = starts_foreign p && all_foreign ps

pub all_bytes-append :
    (p : ℕ → Bool) (u v : Bytes)
    → all_bytes p u ≡ true
    → all_bytes p v ≡ true
    → all_bytes p (u ++ v) ≡ true
unfolding all_bytes
all_bytes-append p [] v hu hv = hv
all_bytes-append p (c ∷ u) v hu hv = ground (arith, all_bytes-append p u v)

-- a class within another
pub all_bytes-weaken :
    (p q : ℕ → Bool) (s : Bytes)
    → ((c : ℕ) → p c ≡ true → q c ≡ true)
    → all_bytes p s ≡ true
    → all_bytes q s ≡ true
unfolding all_bytes
all_bytes-weaken p q [] within h = refl
all_bytes-weaken p q (c ∷ s) within h =
    let first : q c ≡ true = within c (ground arith) in
    let rest : all_bytes q s ≡ true = all_bytes-weaken p q s within (ground arith) in
    rw (first, rest) refl

all_bytes-reverse :
    (p : ℕ → Bool) (s : Bytes) → all_bytes p s ≡ true → all_bytes p (reverse s) ≡ true
unfolding all_bytes
all_bytes-reverse p [] h = refl
all_bytes-reverse p (c ∷ s) h =
    let last : reverse (c ∷ s) ≡ reverse s ++ (c ∷ []) = reverse-append (c ∷ []) s in
    rw last (
      all_bytes-append p (reverse s) (c ∷ []) (all_bytes-reverse p s (ground arith)) (ground arith))

first_prefix-graphic :
    (ps : List Bytes) (c : ℕ) (s : Bytes)
    → all_foreign ps ≡ true
    → is_graphic c ≡ true
    → first_prefix ps (c ∷ s) ≡ none
unfolding first_prefix strip_prefix all_foreign starts_foreign
first_prefix-graphic [] c s foreign h = refl
first_prefix-graphic ([] ∷ ps) c s foreign h = cc
first_prefix-graphic ((a ∷ p) ∷ ps) c s foreign h =
    let apart : (c == a) ≡ false = ground arith in
    rw (apart, first_prefix) (first_prefix-graphic ps c s (ground arith) h)

trim_front-graphic :
    (n : ℕ) (ps : List Bytes) (s : Bytes)
    → all_foreign ps ≡ true
    → first_prefix ps [] ≡ none
    → all_bytes is_graphic s ≡ true
    → trim_front n ps s ≡ s
unfolding trim_front all_bytes
trim_front-graphic zero ps s foreign empty h = refl
trim_front-graphic (suc n) ps [] foreign empty h = rw (empty, trim_front) refl
trim_front-graphic (suc n) ps (c ∷ s) foreign empty h =
    rw (first_prefix-graphic ps c s foreign (ground arith), trim_front) refl

pub trim_space-graphic : (s : Bytes) → all_bytes is_graphic s ≡ true → trim_space s ≡ s
unfolding trim_space all_foreign starts_foreign first_prefix strip_prefix
trim_space-graphic s h =
    rw
      (
        trim_front-graphic (length s) spaces s refl refl h,
        trim_front-graphic (length s) (map reverse spaces) (reverse s) refl refl
            (all_bytes-reverse is_graphic s h),
      )
      (reverse-reverse s)
