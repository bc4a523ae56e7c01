-- ===== src/Base/Filepath/Elements.antt =====
-- `Clean` against a walk that follows a relative path from a directory.
use maid_cafe.Base.Results.{Option-cases}
use maid_cafe.Base.Tests.{◌==◌, if◌then◌else◌}
use maid_cafe.Base.Lists.{All}
use mathlib.Core.Bool.{false, ◌||◌}
use mathlib.Core.Option.{Option, none, some}
use mathlib.Core.List.{List, [], ◌∷◌}
use mathlib.Core.Logic.{inl, inr}
use mathlib.Core.Path.{◌≡◌, refl}
use native.Mathlib.Omega.{arith}
use maid_cafe.Base.Text.{Bytes, codes, str_eq, str_eq_iff, contains_byte, split, cons_to_first}
use maid_cafe.Base.Filepath.{clean_step, clean_elems, List, []}
use maid_cafe.Base.{List, [], ◌≡◌, All, Option, false, arith, some, ◌∷◌, if◌then◌else◌, ◌||◌, none}

-- one element of a path, from the directory that lies the names of a stack below the start, the last
-- name first; `none` where it would leave the start
unfoldable pub walk_step : Bytes → List Bytes → Option (List Bytes)
walk_step elem [] =
    if str_eq elem [] || str_eq elem (codes ".")
    then some []
    else if str_eq elem (codes "..")
    then none
    else some (elem ∷ [])
walk_step elem (top ∷ entered) =
    if str_eq elem [] || str_eq elem (codes ".")
    then some (top ∷ entered)
    else if str_eq elem (codes "..")
    then some entered
    else some (elem ∷ top ∷ entered)

-- the whole path; `none` if it leaves the start at any point
unfoldable pub walk : List Bytes → List Bytes → Option (List Bytes)
unfolding walk_step
walk [] entered = some entered
walk (elem ∷ elems) entered = elim (walk_step elem entered) [
  | none ↦ none
  | some further ↦ walk elems further
]

-- a name of an entry of a directory
pub record Proper (name : Bytes) : Type 0 where
  pub nonempty : str_eq name [] ≡ false
  pub no_dot : str_eq name (codes ".") ≡ false
  pub no_dots : str_eq name (codes "..") ≡ false
  pub no_slash : contains_byte name b'/' ≡ false

abbrev pub NoSlash : Bytes → Type 0
NoSlash name = contains_byte name b'/' ≡ false

pub split-NoSlash : (s : Bytes) → All NoSlash (split b'/' s)
unfolding split contains_byte
split-NoSlash [] = (refl, tt)
split-NoSlash (c ∷ s) = go (split b'/' s) (split-NoSlash s)
  where
    go :
        (parts : List Bytes)
        → All NoSlash parts
        → All NoSlash (if c == b'/' then [] ∷ parts else cons_to_first c parts)
    go [] h = ground arith
    go (p ∷ ps) (hp, hps) = ground arith

clean_step-walk :
    (elem : Bytes) (entered further : List Bytes)
    → NoSlash elem
    → All Proper entered
    → walk_step elem entered ≡ some further
    → (clean_step false elem entered ≡ further) × All Proper further
unfolding clean_step walk_step
clean_step-walk elem [] further s hp h = ground arith
clean_step-walk elem (top ∷ entered) further s (p, hp) h = ground arith

-- As long as the walk stays inside, `Clean` keeps the names that it enters.
pub clean_elems-walk :
    (elems entered inside : List Bytes)
    → All NoSlash elems
    → All Proper entered
    → walk elems entered ≡ some inside
    → (clean_elems false elems entered ≡ inside) × All Proper inside
unfolding clean_elems walk
clean_elems-walk [] entered inside hs hp h = ground arith
clean_elems-walk (elem ∷ elems) entered inside (s, hs) hp h =
    elim (Option-cases (walk_step elem entered)) [
      | inl left ↦ cc (rw (left, walk) at h)
      | inr (further, e) ↦
          let (same, proper) = clean_step-walk elem entered further s hp e in
          rw same (clean_elems-walk elems further inside hs proper (rw (e, walk) at h))
    ]

-- the stack ends in `..`: the cleaned path begins with it
abbrev pub EndsUp : List Bytes → Type 0
EndsUp [] = ⊥
EndsUp (elem ∷ []) = elem ≡ codes ".."
EndsUp (elem ∷ e ∷ es) = EndsUp (e ∷ es)

clean_step-EndsUp :
    (elem : Bytes) (stack : List Bytes) → EndsUp stack → EndsUp (clean_step false elem stack)
unfolding clean_step
clean_step-EndsUp elem [] h = absurd h
clean_step-EndsUp elem (top ∷ []) h = ground (arith, str_eq_iff top (codes ".."))
clean_step-EndsUp elem (top ∷ e ∷ es) h = ground arith

clean_elems-EndsUp :
    (elems stack : List Bytes) → EndsUp stack → EndsUp (clean_elems false elems stack)
unfolding clean_elems
clean_elems-EndsUp [] stack h = h
clean_elems-EndsUp (elem ∷ elems) stack h =
    clean_elems-EndsUp elems (clean_step false elem stack) (clean_step-EndsUp elem stack h)

clean_step-leaves :
    (elem : Bytes) (entered : List Bytes)
    → walk_step elem entered ≡ none
    → EndsUp (clean_step false elem entered)
unfolding clean_step walk_step
clean_step-leaves elem [] h = ground (arith, str_eq_iff elem (codes ".."))
clean_step-leaves elem (top ∷ entered) h = ground arith

-- Where the walk leaves, the cleaned path begins with `..`.
pub clean_elems-leaves :
    (elems entered : List Bytes)
    → All NoSlash elems
    → All Proper entered
    → walk elems entered ≡ none
    → EndsUp (clean_elems false elems entered)
unfolding clean_elems walk
clean_elems-leaves [] entered hs hp h = cc
clean_elems-leaves (elem ∷ elems) entered (s, hs) hp h =
    elim (Option-cases (walk_step elem entered)) [
      | inl left ↦
          clean_elems-EndsUp elems (clean_step false elem entered)
            (clean_step-leaves elem entered left)
      | inr (further, e) ↦
          let (same, proper) = clean_step-walk elem entered further s hp e in
          rw same (clean_elems-leaves elems further hs proper (rw (e, walk) at h))
    ]
