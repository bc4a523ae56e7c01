-- ===== src/Daemon/Files/Resolve/Below.antt =====
-- The path of a target below its root (files.go).
use maid_cafe.Base.{
  ◌==◌, if◌then◌else◌, Bool-cases, All, ◌≡◌, refl, ap, ◌≢◌, ◌⊎◌, inl, inr, true, false, some, List,
  [], ◌∷◌, ◌++◌, arith, &&_split, ==_iff, sym, append-nil, ◌∙◌, append_assoc,
}
use maid_cafe.Base.Filepath.Elements.{Proper}
use maid_cafe.Base.Text.{split, join, Bytes, codes, has_prefix, strip_prefix, str_eq, str_eq_iff}
use maid_cafe.Daemon.Files.{path_inside, trim_prefix, relative_to}
use maid_cafe.Base.Filepath.Rooted.{split-ne, split-append, split-join}

-- the path below a root

has_prefix-append : (s p : Bytes) → has_prefix s p ≡ true → (r : Bytes) × (s ≡ p ++ r)
unfolding has_prefix
has_prefix-append s [] h = (s, refl)
has_prefix-append [] (d ∷ p) h = cc h
has_prefix-append (c ∷ s) (d ∷ p) h =
    let (same, held) = &&_split (c == d) (has_prefix s p) h in
    let (r, e) = has_prefix-append s p held in (r, rw (e, ((==_iff c d).0 same)) refl)

strip_prefix-append : (p r : Bytes) → strip_prefix (p ++ r) p ≡ some r
unfolding strip_prefix
strip_prefix-append [] r = ground arith
strip_prefix-append (d ∷ p) r = ground (arith, strip_prefix-append p r)

-- the root itself, or names of entries below the root
pub BelowRoot : Bytes → Bytes → Bytes → Type 0
BelowRoot root rel path =
    ((rel ≡ codes ".") × (path ≡ root))
    ⊎ (All Proper (split b'/' rel)
        × (path ≡ (if str_eq root (codes "/") then b'/' ∷ rel else root ++ (b'/' ∷ rel))))

All-suffix :
    (us vs names : List Bytes) → us ≢ [] → us ++ vs ≡ [] ∷ names → All Proper names → All Proper vs
All-suffix [] vs names ne e h = absurd (ne refl)
All-suffix (u ∷ us) vs names ne e h = go us names (cc e) h
  where
    go : (us names : List Bytes) → us ++ vs ≡ names → All Proper names → All Proper vs
    go [] names e h = rw e h
    go (u ∷ us) [] e h = cc e
    go (u ∷ us) (n ∷ names) e (p, h) = go us names (cc e) h

Proper-slash :
    (name : Bytes) (names : List Bytes) (rest : Bytes)
    → All Proper (name ∷ names)
    → join (codes "/") (name ∷ names) ≢ b'/' ∷ rest
unfolding split
Proper-slash name names rest (p, h) e =
    let same : name ∷ names ≡ [] ∷ split b'/' rest =
      sym (split-join name names (p, h)) ∙ ap (split b'/') e in
    ground (arith, p.nonempty, str_eq_iff name [])

Proper-nonempty :
    (name : Bytes) (names : List Bytes)
    → All Proper (name ∷ names)
    → join (codes "/") (name ∷ names) ≢ []
unfolding split
Proper-nonempty name names (p, h) e =
    let same : name ∷ names ≡ [] ∷ [] = sym (split-join name names (p, h)) ∙ ap (split b'/') e in
    ground (arith, p.nonempty, str_eq_iff name [])

trim_prefix-append : (p r : Bytes) → trim_prefix (p ++ r) p ≡ r
unfolding trim_prefix
trim_prefix-append p r = rw (strip_prefix-append p r, trim_prefix) refl

relative_to-same : (root : Bytes) → relative_to root root ≡ codes "."
unfolding relative_to trim_prefix str_eq strip_prefix
relative_to-same root =
    let whole = rw (append-nil root) at (trim_prefix-append root []) in rw whole refl

relative_to-append :
    (root rest : Bytes) → rest ≢ [] → relative_to root (root ++ (b'/' ∷ rest)) ≡ rest
unfolding relative_to trim_prefix str_eq
relative_to-append root [] ne = absurd (ne refl)
relative_to-append root (c ∷ rest) ne =
    rw (trim_prefix-append root (b'/' ∷ c ∷ rest), trim_prefix-append (codes "/") (c ∷ rest)) refl

relative_to-slash :
    (name : Bytes) (names : List Bytes)
    → All Proper (name ∷ names)
    → relative_to (codes "/") (b'/' ∷ join (codes "/") (name ∷ names))
      ≡ join (codes "/") (name ∷ names)
relative_to-slash name names h =
    go (join (codes "/") (name ∷ names)) (λ rest. Proper-slash name names rest h)
      (Proper-nonempty name names h)
  where
    go :
        (text : Bytes)
        → ((rest : Bytes) → text ≢ b'/' ∷ rest)
        → text ≢ []
        → relative_to (codes "/") (b'/' ∷ text) ≡ text
    go [] ns ne = absurd (ne refl)
    go (c ∷ text) ns ne = elim (Bool-cases (c == b'/')) [
      | inl slash ↦ absurd (ns text (rw ((==_iff c b'/').0 slash) refl))
      | inr other ↦ unfold relative_to trim_prefix strip_prefix str_eq in ground arith
    ]

single-slash : (root rest : Bytes) → b'/' ∷ [] ≡ root ++ (b'/' ∷ rest) → root ≡ []
single-slash [] rest e = refl
single-slash (c ∷ []) rest e = cc e
single-slash (c ∷ d ∷ root) rest e = cc e

inner-Proper :
    (root rest : Bytes) (names : List Bytes)
    → All Proper names
    → root ≢ []
    → b'/' ∷ join (codes "/") names ≡ root ++ (b'/' ∷ rest)
    → All Proper (split b'/' rest)
unfolding join split
inner-Proper root rest [] h ne e = absurd (ne (single-slash root rest e))
inner-Proper root rest (name ∷ names) h ne e =
    let parts : split b'/' root ++ split b'/' rest ≡ [] ∷ name ∷ names =
      sym (split-append b'/' root rest)
      ∙ ap (split b'/') (sym e)
      ∙ ap (λ elems. [] ∷ elems) (split-join name names h) in
    All-suffix (split b'/' root) (split b'/' rest) (name ∷ names) (split-ne b'/' root) parts h

inner-nonempty : (rest : Bytes) → All Proper (split b'/' rest) → rest ≢ []
unfolding split
inner-nonempty [] (p, h) e = unfold str_eq in cc p.nonempty
inner-nonempty (c ∷ rest) h e = cc e

below-inner :
    (root : Bytes) (names : List Bytes)
    → All Proper names
    → root ≢ []
    → str_eq root (codes "/") ≡ false
    → has_prefix (b'/' ∷ join (codes "/") names) (root ++ codes "/") ≡ true
    → BelowRoot root
        (relative_to root (b'/' ∷ join (codes "/") names))
        (b'/' ∷ join (codes "/") names)
unfolding BelowRoot
below-inner root names h ne inner held =
    let target = b'/' ∷ join (codes "/") names in
    let (rest, e) = has_prefix-append target (root ++ codes "/") held in
    let e' : target ≡ root ++ (b'/' ∷ rest) = e ∙ append_assoc root (codes "/") rest in
    let proper = inner-Proper root rest names h ne e' in
    let text = relative_to-append root rest (inner-nonempty rest proper) in
    rw (e', text, inner) (inr (proper, refl))

below-top :
    (names : List Bytes)
    → All Proper names
    → BelowRoot
        (codes "/")
        (relative_to (codes "/") (b'/' ∷ join (codes "/") names))
        (b'/' ∷ join (codes "/") names)
unfolding BelowRoot
below-top [] h = unfold join in inl (relative_to-same (codes "/"), refl)
below-top (name ∷ names) h =
    rw (relative_to-slash name names h, split-join name names h) (inr (h, unfold str_eq in refl))

pub path_inside-BelowRoot :
    (root : Bytes) (names : List Bytes)
    → All Proper names
    → root ≢ []
    → path_inside root (b'/' ∷ join (codes "/") names) ≡ true
    → BelowRoot root
        (relative_to root (b'/' ∷ join (codes "/") names))
        (b'/' ∷ join (codes "/") names)
unfolding path_inside
path_inside-BelowRoot root names h ne inside =
    let target = b'/' ∷ join (codes "/") names in
    elim (Bool-cases (str_eq target root)) [
      | inl whole ↦
          let e : target ≡ root = (str_eq_iff target root).0 whole in
          rw (e, relative_to-same root) (unfold BelowRoot in inl (refl, refl))
      | inr further ↦ elim (Bool-cases (str_eq root (codes "/"))) [
        | inl top ↦ rw ((str_eq_iff root (codes "/")).0 top) (below-top names h)
        | inr inner ↦ below-inner root names h ne inner (ground arith)
      ]
    ]
