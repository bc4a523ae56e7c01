-- ===== src/Privfs/Path/Confined.antt =====
-- A path that `safeRel` returns stays inside the profile's directory.
use maid_cafe.Base.{
  true, false, ◌++◌, refl, ◌>>◌, guard, Option, ap, List, [], ◌∷◌, Result, ok, err, ◌≡◌, arith, All,
  All-append, none, some, ◌≢◌,
}
use mathlib.Core.List.{reverse, reverse-cons, concat-ne-nil}
use maid_cafe.Base.Text.{Bytes, codes, str_eq, has_prefix, contains_byte, split, join}
use maid_cafe.Base.Filepath.{is_abs, clean, render, clean_elems}
use maid_cafe.Base.Filepath.Elements.{
  walk, Proper, NoSlash, EndsUp, split-NoSlash, clean_elems-walk, clean_elems-leaves,
}
use maid_cafe.Privfs.Path.{PathError, safe_rel, empty, has_nul, absolute, outside, escapes}

-- The path by the walk that it makes from the profile's directory: it is refused if it leaves that
-- directory at any point or ends in it, and else it is the names entered, with slashes between.
landing : Option (List Bytes) → Result PathError Bytes
landing none = err outside
landing (some []) = err outside
landing (some (name ∷ entered)) = ok (join (codes "/") (reverse (name ∷ entered)))

pub by_walk : Bytes → Result PathError Bytes
unfolding landing
by_walk rel = do
  guard (str_eq rel []) empty
  guard (contains_byte rel 0) has_nul
  guard (is_abs rel) absolute
  landing (walk (split b'/' rel) [])

reverse-EndsUp :
    (stack : List Bytes) → EndsUp stack → (rest : List Bytes) × (reverse stack ≡ codes ".." ∷ rest)
reverse-EndsUp [] h = absurd h
reverse-EndsUp (elem ∷ []) h = ([], cc h)
reverse-EndsUp (elem ∷ e ∷ es) h =
    let (rest, eq) = reverse-EndsUp (e ∷ es) h in (rest ++ (elem ∷ []), rw reverse-cons (rw eq))

escapes-up : (rest : List Bytes) → escapes (render false (codes ".." ∷ rest)) ≡ true
unfolding escapes render has_prefix str_eq
escapes-up [] = refl
escapes-up (e ∷ es) = refl

contains_byte-prefix : (name : Bytes) → NoSlash name → has_prefix name (codes "../") ≡ false
unfolding has_prefix contains_byte
contains_byte-prefix [] h = refl
contains_byte-prefix (a ∷ []) h = ground arith
contains_byte-prefix (a ∷ b ∷ []) h = ground arith
contains_byte-prefix (a ∷ b ∷ c ∷ s) h = ground arith

escapes-behind : (name rest : Bytes) → Proper name → escapes (name ++ (b'/' ∷ rest)) ≡ false
unfolding escapes has_prefix contains_byte str_eq
escapes-behind [] rest p = ground arith
escapes-behind (a ∷ []) rest p = ground arith
escapes-behind (a ∷ b ∷ []) rest p = ground arith
escapes-behind (a ∷ b ∷ c ∷ s) rest p = ground arith

escapes-Proper :
    (name : Bytes) (names : List Bytes)
    → All Proper (name ∷ names)
    → escapes (render false (name ∷ names)) ≡ false
unfolding render
escapes-Proper name [] (p, hp) = unfold escapes in ground (arith, contains_byte-prefix name)
escapes-Proper name (e ∷ es) (p, hp) = escapes-behind name (join (codes "/") (e ∷ es)) p

pub All-reverse {ℓ κ} : {A : Type ℓ} (P : A → Type κ) (xs : List A) → All P xs → All P (reverse xs)
All-reverse P [] h = h
All-reverse P (x ∷ xs) (p, h) =
    rw reverse-cons (All-append P (reverse xs) (x ∷ []) (All-reverse P xs h) (p, tt))

-- A cleaned path that begins with `..` is refused.
escapes-EndsUp : (stack : List Bytes) → EndsUp stack → escapes (render false (reverse stack)) ≡ true
escapes-EndsUp stack h = let (rest, e) = reverse-EndsUp stack h in rw e (escapes-up rest)

reverse-ne-nil {ℓ} : {A : Type ℓ} (x : A) (xs : List A) → reverse (x ∷ xs) ≢ []
reverse-ne-nil x xs = rw reverse-cons (concat-ne-nil x (reverse xs))

-- A cleaned path of proper names is not.
escapes-reverse :
    (name : Bytes) (entered : List Bytes)
    → All Proper (name ∷ entered)
    → (escapes (render false (reverse (name ∷ entered))) ≡ false)
      × (render false (reverse (name ∷ entered)) ≡ join (codes "/") (reverse (name ∷ entered)))
escapes-reverse name entered h =
    go (reverse (name ∷ entered)) (All-reverse Proper (name ∷ entered) h)
      (reverse-ne-nil name entered)
  where
    go :
        (names : List Bytes)
        → All Proper names
        → names ≢ []
        → (escapes (render false names) ≡ false) × (render false names ≡ join (codes "/") names)
    go [] p ne = absurd (ne refl)
    go (n ∷ ns) p ne = (escapes-Proper n ns p, unfold render in refl)

clean-relative :
    (rel : Bytes)
    → is_abs rel ≡ false
    → clean rel ≡ render false (reverse (clean_elems false (split b'/' rel) []))
unfolding clean
clean-relative rel h = rw h refl

checked-landing :
    (rel : Bytes)
    → is_abs rel ≡ false
    → (guard (escapes (clean rel)) outside >> ok (clean rel)) ≡ landing (walk (split b'/' rel) [])
checked-landing rel h = rw (clean-relative rel h) (go (walk (split b'/' rel) []) refl)
  where
    stack : List Bytes
    stack = clean_elems false (split b'/' rel) []

    go :
        (landed : Option (List Bytes))
        → walk (split b'/' rel) [] ≡ landed
        → (guard (escapes (render false (reverse stack))) outside
            >> ok (render false (reverse stack)))
          ≡ landing landed
    go none e =
        rw (escapes-EndsUp stack (clean_elems-leaves (split b'/' rel) [] (split-NoSlash rel) tt e))
          (unfold landing in refl)
    go (some []) e =
        let (same, proper) = clean_elems-walk (split b'/' rel) [] [] (split-NoSlash rel) tt e in
        rw same (unfold landing escapes render str_eq in refl)
    go (some (name ∷ entered)) e =
        let (same, proper) =
          clean_elems-walk (split b'/' rel) [] (name ∷ entered) (split-NoSlash rel) tt e in
        let (inside, text) = escapes-reverse name entered proper in
        rw (same, inside) (unfold landing in ap ok text)

-- `safeRel` accepts a path exactly if it is not empty, has no NUL byte, is not absolute, and the
-- walk over its elements never leaves the directory that it starts in and ends below it. What it
-- returns is the names of the entries that the walk enters, with slashes between.
pub safe_rel-by_walk : (rel : Bytes) → safe_rel rel ≡ by_walk rel
unfolding safe_rel by_walk
safe_rel-by_walk rel = ground (arith, checked-landing rel)

by_walk_ok :
    (rel path : Bytes)
    → safe_rel rel ≡ ok path
    → (landed : Option (List Bytes)) → walk (split b'/' rel) [] ≡ landed
    → landing landed ≡ ok path
unfolding by_walk
by_walk_ok rel path h landed e = rw (← e) (ground (arith, safe_rel-by_walk rel))

ok_inj : {a b : Bytes} → ◌≡◌ {A = Result PathError Bytes} (ok a) (ok b) → b ≡ a
ok_inj h = cc

-- A path that `safeRel` returns is one or more names with slashes between, none of them empty, `.`
-- or `..`, and none with a slash in it: it names an entry below the profile's directory.
pub safe_rel-Proper :
    (rel path : Bytes)
    → safe_rel rel ≡ ok path
    → (names : List Bytes) × (names ≢ []) × All Proper names × (path ≡ join (codes "/") names)
unfolding landing
safe_rel-Proper rel path h = go (walk (split b'/' rel) []) refl
  where
    go :
        (landed : Option (List Bytes))
        → walk (split b'/' rel) [] ≡ landed
        → (names : List Bytes) × (names ≢ []) × All Proper names × (path ≡ join (codes "/") names)
    go none e = cc (by_walk_ok rel path h none e)
    go (some []) e = cc (by_walk_ok rel path h (some []) e)
    go (some (name ∷ entered)) e =
        let (same, proper) =
          clean_elems-walk (split b'/' rel) [] (name ∷ entered) (split-NoSlash rel) tt e in
        (
          reverse (name ∷ entered),
          reverse-ne-nil name entered,
          All-reverse Proper (name ∷ entered) proper,
          ok_inj (by_walk_ok rel path h (some (name ∷ entered)) e),
        )
