-- ===== src/Base/Text/Cuts.antt =====
-- Where `cut` and `cut_last` cut a text.
use maid_cafe.Base.{
  ◌==◌, ==_iff, Bool-cases, Option-cases, ℕ, ◌≡◌, refl, ap, inl, inr, false, none, some, [], ◌∷◌,
  ◌++◌, arith,
}
use maid_cafe.Base.Text.{Bytes, contains_byte, cut, cut_last}

pub cut-some :
    (b : ℕ) (s u v : Bytes)
    → cut b s ≡ some (u, v)
    → (s ≡ u ++ (b ∷ v)) × (contains_byte u b ≡ false)
unfolding cut contains_byte
cut-some b [] u v h = cc h
cut-some b (c ∷ s) u v h = elim (Bool-cases (c == b)) [
  | inl found ↦
      let same : ◌≡◌ {A = Bytes × Bytes} ([], s) (u, v) = cc (rw (found, cut) at h) in
      rw
        (
          ← ap (λ (z : Bytes × Bytes). z.0) same,
          ← ap (λ (z : Bytes × Bytes). z.1) same,
          (==_iff c b).0 found,
        )
        (refl, refl)
  | inr other ↦ elim (Option-cases (cut b s)) [
    | inl none_left ↦ cc (rw (other, none_left, cut) at h)
    | inr ((x, y), e) ↦
        let (text, clear) = cut-some b s x y e in
        let same : ◌≡◌ {A = Bytes × Bytes} (c ∷ x, y) (u, v) = cc (rw (other, e, cut) at h) in
        rw (← ap (λ (z : Bytes × Bytes). z.0) same, ← ap (λ (z : Bytes × Bytes). z.1) same)
          (ap (λ (z : Bytes). c ∷ z) text, rw (other, clear) refl)
  ]
]

pub cut-none : (b : ℕ) (s : Bytes) → cut b s ≡ none → contains_byte s b ≡ false
unfolding cut contains_byte
cut-none b [] h = refl
cut-none b (c ∷ s) h = elim (Option-cases (cut b s)) [
  | inl none_left ↦ ground (arith, cut-none b s none_left, none_left)
  | inr ((u, v), e) ↦ ground (arith, e)
]

pub contains_byte-append :
    (b : ℕ) (u v : Bytes)
    → contains_byte u b ≡ false
    → contains_byte v b ≡ false
    → contains_byte (u ++ v) b ≡ false
unfolding contains_byte
contains_byte-append b [] v hu hv = hv
contains_byte-append b (c ∷ u) v hu hv = ground (arith, contains_byte-append b u v)

-- a text without the byte is not cut
pub cut-lacks : (b : ℕ) (s : Bytes) → contains_byte s b ≡ false → cut b s ≡ none
unfolding cut contains_byte
cut-lacks b [] h = refl
cut-lacks b (c ∷ s) h =
    let other : (c == b) ≡ false = ground arith in
    let rest : cut b s ≡ none = cut-lacks b s (ground arith) in rw (other, rest) refl

pub cut_last-lacks : (b : ℕ) (s : Bytes) → contains_byte s b ≡ false → cut_last b s ≡ none
unfolding cut_last contains_byte
cut_last-lacks b [] h = refl
cut_last-lacks b (c ∷ s) h =
    let other : (c == b) ≡ false = ground arith in
    let rest : cut_last b s ≡ none = cut_last-lacks b s (ground arith) in rw (rest, other) refl

-- the first cut is behind a text without the byte
pub cut-append :
    (b : ℕ) (u v : Bytes) → contains_byte u b ≡ false → cut b (u ++ (b ∷ v)) ≡ some (u, v)
unfolding cut contains_byte
cut-append b [] v h = rw ((==_iff b b).1 refl) refl
cut-append b (c ∷ u) v h =
    let other : (c == b) ≡ false = ground arith in
    let rest : cut b (u ++ (b ∷ v)) ≡ some (u, v) = cut-append b u v (ground arith) in
    rw (other, rest) refl

-- the last cut is before a text without the byte
pub cut_last-append :
    (b : ℕ) (u v : Bytes) → contains_byte v b ≡ false → cut_last b (u ++ (b ∷ v)) ≡ some (u, v)
unfolding cut_last
cut_last-append b [] v h = rw (cut_last-lacks b v h, (==_iff b b).1 refl) refl
cut_last-append b (c ∷ u) v h = rw (cut_last-append b u v h) refl
