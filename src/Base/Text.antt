-- ===== src/Base/Text.antt =====
-- Go strings as lists of bytes, and what the program uses of package `strings`.
pub mod Cuts
pub mod Graphic
use Prim.Native.Nat.{ℕ, zero, suc, ◌+◌}
use Prim.Native.Char.{code}
use Prim.Native.String.{String}
use mathlib.Core.Path.{◌≡◌, refl, sym, ap, ◌≡⟨◌⟩◌, ◌∎}
use mathlib.Core.Logic.{◌↔◌, inl, inr}
use mathlib.Core.Bool.{Bool, true, false, ◌&&◌, ◌||◌}
use maid_cafe.Base.Results.{Option-cases}
use mathlib.Core.List.{reverse-reverse, reverse-append, List, [], ◌∷◌, ◌++◌, map, reverse}
use mathlib.Core.Option
use mathlib.Core.Option.{Option, none, some}
use native.Mathlib.Omega.{arith}
use maid_cafe.Base.Tests.{leb, ◌==◌, if◌then◌else◌}
use maid_cafe.Base.Lists.{length}

abbrev pub Bytes : Type 0
Bytes = List ℕ

-- The bytes of a literal, which is ASCII throughout.
abbrev pub codes : String → Bytes
codes String.[] = []
codes (String.◌∷◌ c s) = code c ∷ codes s

-- `==` on strings
unfoldable pub str_eq : Bytes → Bytes → Bool
str_eq [] [] = true
str_eq [] (d ∷ t) = false
str_eq (c ∷ s) [] = false
str_eq (c ∷ s) (d ∷ t) = (c == d) && str_eq s t

pub eq_of_str_eq : (s t : Bytes) → str_eq s t ≡ true → s ≡ t
unfolding str_eq
eq_of_str_eq [] [] h = refl
eq_of_str_eq [] (d ∷ t) h = cc
eq_of_str_eq (c ∷ s) [] h = cc
eq_of_str_eq (c ∷ s) (d ∷ t) h = ground (arith, eq_of_str_eq s t)

pub str_eq_refl : (s : Bytes) → str_eq s s ≡ true
unfolding str_eq
str_eq_refl [] = refl
str_eq_refl (c ∷ s) = ground (arith, str_eq_refl s)

pub str_eq_iff : (s t : Bytes) → (str_eq s t ≡ true) ↔ (s ≡ t)
str_eq_iff s t = (eq_of_str_eq s t, λ e. rw e (str_eq_refl t))

-- Whether a string is among those listed: a map with string keys and `true` for values.
unfoldable pub mem : Bytes → List Bytes → Bool
unfolding str_eq
mem s [] = false
mem s (t ∷ ts) = str_eq s t || mem s ts

-- `strings.HasPrefix(s, p)`
unfoldable pub has_prefix : Bytes → Bytes → Bool
has_prefix s [] = true
has_prefix [] (d ∷ p) = false
has_prefix (c ∷ s) (d ∷ p) = (c == d) && has_prefix s p

-- `strings.TrimPrefix(s, p)`, where `s` has the prefix `p`
unfoldable pub strip_prefix : Bytes → Bytes → Option Bytes
strip_prefix s [] = some s
strip_prefix [] (d ∷ p) = none
strip_prefix (c ∷ s) (d ∷ p) = if c == d then strip_prefix s p else none

pub strip_prefix_lem : (s p : Bytes) {r : Bytes} → strip_prefix s p ≡ some r → s ≡ p ++ r
unfolding strip_prefix
strip_prefix_lem s [] h = ground arith
strip_prefix_lem [] (d ∷ p) h = cc
strip_prefix_lem (c ∷ s) (d ∷ p) {r} h = ground (arith, strip_prefix_lem s p {r = r})

-- `strings.TrimSuffix(s, p)`, where `s` has the suffix `p`
unfoldable pub strip_suffix : Bytes → Bytes → Option Bytes
strip_suffix s p = Option.map reverse (strip_prefix (reverse s) (reverse p))

pub strip_suffix_lem : (s p : Bytes) {r : Bytes} → strip_suffix s p ≡ some r → s ≡ r ++ p
unfolding strip_suffix
strip_suffix_lem s p {r} h = elim (Option-cases (strip_prefix (reverse s) (reverse p))) [
  | inl none_left ↦ cc (rw none_left at h)
  | inr (q, e) ↦
      let back : reverse q ≡ r = cc (rw e at h) in
      s
      ≡⟨ sym (reverse-reverse s) ⟩ reverse (reverse s)
      ≡⟨ ap reverse (strip_prefix_lem (reverse s) (reverse p) e) ⟩ reverse (reverse p ++ q)
      ≡⟨ reverse-append (reverse p) q ⟩ reverse q ++ reverse (reverse p)
      ≡⟨ (simp (back, reverse-reverse)) ⟩ r ++ p ∎
]

-- `strings.ContainsRune(s, b)` for an ASCII rune
unfoldable pub contains_byte : Bytes → ℕ → Bool
contains_byte [] b = false
contains_byte (c ∷ s) b = (c == b) || contains_byte s b

-- `strings.Contains(s, p)`
unfoldable pub contains_text : Bytes → Bytes → Bool
unfolding has_prefix
contains_text [] p = has_prefix [] p
contains_text (c ∷ s) p = has_prefix (c ∷ s) p || contains_text s p

unfoldable pub all_bytes : (ℕ → Bool) → Bytes → Bool
all_bytes p [] = true
all_bytes p (c ∷ s) = p c && all_bytes p s

-- the UTF-8 encodings of the characters of `unicode.IsSpace`
abbrev spaces : List Bytes
spaces =
    (0x20 ∷ [])
    ∷ (0x09 ∷ [])
    ∷ (0x0a ∷ [])
    ∷ (0x0b ∷ [])
    ∷ (0x0c ∷ [])
    ∷ (0x0d ∷ [])
    ∷ (0xc2 ∷ 0x85 ∷ [])
    ∷ (0xc2 ∷ 0xa0 ∷ [])
    ∷ (0xe1 ∷ 0x9a ∷ 0x80 ∷ [])
    ∷ (0xe2 ∷ 0x80 ∷ 0x80 ∷ [])
    ∷ (0xe2 ∷ 0x80 ∷ 0x81 ∷ [])
    ∷ (0xe2 ∷ 0x80 ∷ 0x82 ∷ [])
    ∷ (0xe2 ∷ 0x80 ∷ 0x83 ∷ [])
    ∷ (0xe2 ∷ 0x80 ∷ 0x84 ∷ [])
    ∷ (0xe2 ∷ 0x80 ∷ 0x85 ∷ [])
    ∷ (0xe2 ∷ 0x80 ∷ 0x86 ∷ [])
    ∷ (0xe2 ∷ 0x80 ∷ 0x87 ∷ [])
    ∷ (0xe2 ∷ 0x80 ∷ 0x88 ∷ [])
    ∷ (0xe2 ∷ 0x80 ∷ 0x89 ∷ [])
    ∷ (0xe2 ∷ 0x80 ∷ 0x8a ∷ [])
    ∷ (0xe2 ∷ 0x80 ∷ 0xa8 ∷ [])
    ∷ (0xe2 ∷ 0x80 ∷ 0xa9 ∷ [])
    ∷ (0xe2 ∷ 0x80 ∷ 0xaf ∷ [])
    ∷ (0xe2 ∷ 0x81 ∷ 0x9f ∷ [])
    ∷ (0xe3 ∷ 0x80 ∷ 0x80 ∷ [])
    ∷ []

-- the text behind the first of the listed prefixes that fits
first_prefix : List Bytes → Bytes → Option Bytes
unfolding strip_prefix
first_prefix [] s = none
first_prefix (p ∷ ps) s = elim (strip_prefix s p) [ none ↦ first_prefix ps s | some r ↦ some r ]

-- Cuts the listed characters off the front. Each round drops a byte or more, so the length of the
-- text is fuel enough.
trim_front : ℕ → List Bytes → Bytes → Bytes
unfolding first_prefix
trim_front zero ps s = s
trim_front (suc n) ps s = elim (first_prefix ps s) [ none ↦ s | some r ↦ trim_front n ps r ]

-- `strings.TrimSpace(s)`
unfoldable pub trim_space : Bytes → Bytes
unfolding trim_front
trim_space s =
    let front = trim_front (length s) spaces s in
    reverse (trim_front (length front) (map reverse spaces) (reverse front))

-- `strings.ToLower(s)`: A to Z, and the two characters outside ASCII whose lower case is in ASCII,
-- the Kelvin sign and the dotted I. Other characters are left alone: the program only compares the
-- result with words in ASCII, from which such a text differs either way.
unfoldable pub to_lower : Bytes → Bytes
unfolding strip_prefix
to_lower [] = []
to_lower (a ∷ s) =
    let rest = to_lower s in
    let low = if leb b'A' a && leb a b'Z' then a + 32 else a in
    elim (strip_prefix (a ∷ rest) (0xe2 ∷ 0x84 ∷ 0xaa ∷ [])) [
      | some r ↦ b'k' ∷ r
      | none ↦ elim (strip_prefix (a ∷ rest) (0xc4 ∷ 0xb0 ∷ [])) [
        | some r ↦ b'i' ∷ r
        | none ↦ low ∷ rest
      ]
    ]

-- `s[:i]` and `s[i+1:]` where `i` is `strings.IndexByte(s, b)`, if there is such an index
unfoldable pub cut : ℕ → Bytes → Option (Bytes × Bytes)
cut b [] = none
cut b (c ∷ s) =
    let rest = cut b s in
    if c == b then some ([], s) else elim rest [ none ↦ none | some (u, v) ↦ some (c ∷ u, v) ]

-- the same where `i` is `strings.LastIndexByte(s, b)`
unfoldable pub cut_last : ℕ → Bytes → Option (Bytes × Bytes)
cut_last b [] = none
cut_last b (c ∷ s) = elim (cut_last b s) [
  | some (u, v) ↦ some (c ∷ u, v)
  | none ↦ if c == b then some ([], s) else none
]

unfoldable pub cons_to_first : ℕ → List Bytes → List Bytes
cons_to_first c [] = (c ∷ []) ∷ []
cons_to_first c (p ∷ ps) = (c ∷ p) ∷ ps

-- `strings.Split(s, sep)` for a separator of one byte
unfoldable pub split : ℕ → Bytes → List Bytes
unfolding cons_to_first
split b [] = [] ∷ []
split b (c ∷ s) = let rest = split b s in if c == b then [] ∷ rest else cons_to_first c rest

-- `strings.Join(parts, sep)`
unfoldable pub join : Bytes → List Bytes → Bytes
join sep [] = []
join sep (p ∷ []) = p
join sep (p ∷ q ∷ ps) = p ++ (sep ++ join sep (q ∷ ps))
