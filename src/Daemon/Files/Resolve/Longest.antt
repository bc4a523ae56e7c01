-- ===== src/Daemon/Files/Resolve/Longest.antt =====
-- The root that `resolve` takes: one of the policy, and the longest (files.go).
use maid_cafe.Base.{
  Bool-cases, length, All, Among, ◌≤◌, ◌≡◌, ◌⊎◌, inl, inr, true, none, some, List, [], ◌∷◌, arith,
}
use maid_cafe.Base.Text.{Bytes}
use maid_cafe.Daemon.Files.{FileRoot, path_inside, better, best_root}

-- a root is no better than another
pub NoLonger : Bytes → FileRoot → FileRoot → Type 0
NoLonger target r root = path_inside root.path target ≡ true → length root.path ≤ length r.path

best_root-some :
    (target : Bytes) (roots : List FileRoot) (b r : FileRoot)
    → path_inside b.path target ≡ true
    → best_root target roots (some b) ≡ some r
    → ((r ≡ b) ⊎ Among r roots)
      × (path_inside r.path target ≡ true)
      × (length b.path ≤ length r.path)
      × All (NoLonger target r) roots
unfolding best_root better NoLonger
best_root-some target [] b r inside h = ground arith
best_root-some target (root ∷ roots) b r inside h =
    elim (Bool-cases (better target root (some b))) [
      | inl takes ↦
          let (among, within, longer, rest) =
            best_root-some target roots root r (ground arith) (rw (takes, best_root) at h) in
          (inr among, within, ground arith, ((λ held. longer), rest))
      | inr stays ↦
          let (among, within, longer, rest) =
            best_root-some target roots b r inside (rw (stays, best_root) at h) in
          (
            elim among [ inl e ↦ inl e | inr m ↦ inr (inr m) ],
            within,
            longer,
            ((λ held. ground arith), rest),
          )
    ]

pub best_root-none :
    (target : Bytes) (roots : List FileRoot) (r : FileRoot)
    → best_root target roots none ≡ some r
    → Among r roots × (path_inside r.path target ≡ true) × All (NoLonger target r) roots
unfolding best_root better NoLonger
best_root-none target [] r h = cc h
best_root-none target (root ∷ roots) r h = elim (Bool-cases (path_inside root.path target)) [
  | inl takes ↦
      let (among, within, longer, rest) =
        best_root-some target roots root r takes (rw (takes, best_root) at h) in
      (among, within, ((λ held. longer), rest))
  | inr stays ↦
      let (among, within, rest) = best_root-none target roots r (rw (stays, best_root) at h) in
      (inr among, within, ((λ held. ground arith), rest))
]
