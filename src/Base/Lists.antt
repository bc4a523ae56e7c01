-- ===== src/Base/Lists.antt =====
-- Lists measured and cut by native numbers, and predicates over their items.
use Prim.Native.Nat.{ℕ, zero, suc, ◌+◌, ◌-◌, ◌≤◌}
use mathlib.Core.Path.{◌≡◌, refl, ap}
use mathlib.Core.Logic.{◌⊎◌, inl, inr}
use mathlib.Core.List.{List, [], ◌∷◌, ◌++◌}
use mathlib.Core.Bool.{Bool, true, false}
use maid_cafe.Base.Tests.{if◌then◌else◌}
use mathlib.Core.Option.{Option, none, some}
use native.Mathlib.Omega.{arith}
use native.Mathlib.Nat.{zero-add}
use Prim.Native.Nat.add

module _ {ℓ} {A : Type ℓ} where
  abbrev pub length : List A → ℕ
  length [] = 0
  length (x ∷ xs) = suc (length xs)

  abbrev pub get_elem? : List A → ℕ → Option A
  get_elem? [] i = none
  get_elem? (x ∷ xs) zero = some x
  get_elem? (x ∷ xs) (suc i) = get_elem? xs i

  abbrev pub take : ℕ → List A → List A
  take zero xs = []
  take (suc n) [] = []
  take (suc n) (x ∷ xs) = x ∷ take n xs

  abbrev pub drop : ℕ → List A → List A
  drop zero xs = xs
  drop (suc n) [] = []
  drop (suc n) (x ∷ xs) = drop n xs

  unfoldable pub filter : (A → Bool) → List A → List A
  filter p [] = []
  filter p (x ∷ xs) = let rest = filter p xs in if p x then x ∷ rest else rest

  pub filter_yes :
      (p : A → Bool) (x : A) (xs : List A) → p x ≡ true → filter p (x ∷ xs) ≡ x ∷ filter p xs
  unfolding filter
  filter_yes p x xs h = rw h

  pub filter_no :
      (p : A → Bool) (x : A) (xs : List A) → p x ≡ false → filter p (x ∷ xs) ≡ filter p xs
  unfolding filter
  filter_no p x xs h = rw h

  pub length-append : (xs ys : List A) → length (xs ++ ys) ≡ length xs + length ys
  length-append [] ys = omega arith
  length-append (x ∷ xs) ys = omega (arith, length-append xs ys)

  pub length-drop : (n : ℕ) (xs : List A) → length (drop n xs) ≡ length xs - n
  length-drop zero xs = omega arith
  length-drop (suc n) [] = omega arith
  length-drop (suc n) (x ∷ xs) = omega (arith, length-drop n xs)

  pub drop-append : (n : ℕ) (xs ys : List A) → n ≤ length xs → drop n (xs ++ ys) ≡ drop n xs ++ ys
  drop-append zero xs ys h = refl
  drop-append (suc n) [] ys h = elim h [ ]
  drop-append (suc n) (x ∷ xs) ys h = drop-append n xs ys (omega arith)

  pub take-append-drop : (n : ℕ) (xs : List A) → take n xs ++ drop n xs ≡ xs
  take-append-drop zero xs = refl
  take-append-drop (suc n) [] = refl
  take-append-drop (suc n) (x ∷ xs) = rw (take-append-drop n xs)

  drop-nil : (n : ℕ) → drop n [] ≡ []
  drop-nil zero = refl
  drop-nil (suc n) = refl

  pub drop-drop : (m n : ℕ) (xs : List A) → drop m (drop n xs) ≡ drop (n + m) xs
  drop-drop m zero xs = rw zero-add
  drop-drop m (suc n) [] = rw (drop-nil m, drop-nil (suc n + m))
  drop-drop m (suc n) (x ∷ xs) = rw add.suc (drop-drop m n xs)

module _ {ℓ} {A : Type ℓ} where
  pub take-append :
      (k m n : ℕ) (xs : List A) → n ≡ k + m → take k xs ++ take m (drop k xs) ≡ take n xs
  take-append zero m n xs h = let e : n ≡ m = omega (arith, h) in rw e refl
  take-append (suc k) m zero xs h = absurd (omega (arith, h))
  take-append (suc k) zero (suc n) [] h = refl
  take-append (suc k) (suc m) (suc n) [] h = refl
  take-append (suc k) m (suc n) (x ∷ xs) h =
      ap (λ rest. x ∷ rest) (take-append k m n xs (omega (arith, h)))

  pub length-take : (k : ℕ) (xs : List A) → k ≤ length xs → length (take k xs) ≡ k
  length-take zero xs h = refl
  length-take (suc k) [] h = omega (arith, h)
  length-take (suc k) (x ∷ xs) h = ap suc (length-take k xs (omega (arith, h)))

  pub take-take : (i k : ℕ) (xs : List A) → i ≤ k → take i (take k xs) ≡ take i xs
  take-take zero k xs h = refl
  take-take (suc i) zero xs h = absurd (omega (arith, h))
  take-take (suc i) (suc k) [] h = refl
  take-take (suc i) (suc k) (x ∷ xs) h = ap (λ rest. x ∷ rest) (take-take i k xs (omega (arith, h)))

  pub take-all : (k : ℕ) (xs : List A) → length xs ≤ k → take k xs ≡ xs
  take-all zero [] h = refl
  take-all zero (x ∷ xs) h = absurd (omega (arith, h))
  take-all (suc k) [] h = refl
  take-all (suc k) (x ∷ xs) h = ap (λ rest. x ∷ rest) (take-all k xs (omega (arith, h)))

module _ {A : Type 0} where
  -- one of the items of a list
  abbrev pub Among : A → List A → Type 0
  Among a [] = ⊥
  Among a (x ∷ xs) = (a ≡ x) ⊎ Among a xs

module _ {ℓ κ} {A : Type ℓ} (P : A → Type κ) where
  abbrev pub All : List A → Type κ
  All [] = Unit
  All (x ∷ xs) = P x × All xs

  pub All-append : (xs ys : List A) → All xs → All ys → All (xs ++ ys)
  All-append [] ys _ hy = hy
  All-append (x ∷ xs) ys (px, hx) hy = (px, All-append xs ys hx hy)

module _ {κ} {A : Type 0} (P : A → Type κ) where
  pub All-Among : (xs : List A) (a : A) → All P xs → Among a xs → P a
  All-Among [] a h m = absurd m
  All-Among (x ∷ xs) a (px, hx) (inl e) = rw e px
  All-Among (x ∷ xs) a (px, hx) (inr m) = All-Among xs a hx m
