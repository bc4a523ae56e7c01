-- ===== src/Base/Filepath/Rooted.antt =====
-- The elements of a clean absolute path.
use maid_cafe.Base.{
  ◌==◌, if◌then◌else◌, All, ℕ, ◌≡◌, refl, ap, ◌≢◌, true, false, List, [], ◌∷◌, ◌++◌, arith,
}
use mathlib.Core.List.{reverse}
use maid_cafe.Base.Filepath.{is_abs, clean, render, clean_step, clean_elems}
use maid_cafe.Base.Filepath.Elements.{Proper, NoSlash, split-NoSlash}
use maid_cafe.Privfs.Path.Confined.{All-reverse}
use maid_cafe.Base.Text.{contains_byte, split, join, cons_to_first, Bytes, codes}

-- the elements between slashes

cons_to_first-append :
    (c : ℕ) (parts more : List Bytes)
    → parts ≢ []
    → cons_to_first c (parts ++ more) ≡ cons_to_first c parts ++ more
unfolding cons_to_first
cons_to_first-append c [] more ne = absurd (ne refl)
cons_to_first-append c (p ∷ ps) more ne = refl

pub split-ne : (b : ℕ) (s : Bytes) → split b s ≢ []
unfolding split cons_to_first
split-ne b [] h = cc h
split-ne b (c ∷ s) h = go (split b s) h
  where
    go : (parts : List Bytes) → (if c == b then [] ∷ parts else cons_to_first c parts) ≢ []
    go [] h = ground arith
    go (p ∷ ps) h = ground arith

pub split-append : (b : ℕ) (u v : Bytes) → split b (u ++ (b ∷ v)) ≡ split b u ++ split b v
unfolding split
split-append b [] v = ground arith
split-append b (c ∷ u) v =
    ground
      (arith, split-append b u v, cons_to_first-append c (split b u) (split b v) (split-ne b u))

split-single : (name : Bytes) → contains_byte name b'/' ≡ false → split b'/' name ≡ name ∷ []
unfolding split contains_byte cons_to_first
split-single [] h = refl
split-single (c ∷ s) h = ground (arith, split-single s)

pub split-join :
    (name : Bytes) (names : List Bytes)
    → All Proper (name ∷ names)
    → split b'/' (join (codes "/") (name ∷ names)) ≡ name ∷ names
unfolding join
split-join name [] (p, h) = split-single name p.no_slash
split-join name (n ∷ ns) (p, h) =
    rw (split-append b'/' name (join (codes "/") (n ∷ ns)), split-single name p.no_slash)
      (ap (λ rest. name ∷ rest) (split-join n ns h))

-- the clean form of an absolute path

clean_step-Proper :
    (elem : Bytes) (stack : List Bytes)
    → NoSlash elem
    → All Proper stack
    → All Proper (clean_step true elem stack)
unfolding clean_step
clean_step-Proper elem [] s h = ground arith
clean_step-Proper elem (top ∷ stack) s (p, h) = ground arith

clean_elems-Proper :
    (elems stack : List Bytes)
    → All NoSlash elems
    → All Proper stack
    → All Proper (clean_elems true elems stack)
unfolding clean_elems
clean_elems-Proper [] stack hs h = h
clean_elems-Proper (elem ∷ elems) stack (s, hs) h =
    clean_elems-Proper elems (clean_step true elem stack) hs (clean_step-Proper elem stack s h)

pub clean-absolute :
    (raw : Bytes)
    → is_abs raw ≡ true
    → (names : List Bytes) × All Proper names × (clean raw ≡ b'/' ∷ join (codes "/") names)
unfolding clean render
clean-absolute raw h =
    let stack = clean_elems true (split b'/' raw) [] in
    (
      reverse stack,
      All-reverse Proper stack (clean_elems-Proper (split b'/' raw) [] (split-NoSlash raw) tt),
      rw h refl,
    )
