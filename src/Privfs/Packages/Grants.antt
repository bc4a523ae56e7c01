-- ===== src/Privfs/Packages/Grants.antt =====
-- What a grant file's [packages] table authorizes.
use maid_cafe.Base.{true, false, List, [], ◌∷◌, ok, ◌≡◌, ◌↔◌, ◌||◌, refl, arith, map}
use maid_cafe.Base.Text.{
  Bytes, codes, mem, contains_byte, has_prefix, trim_space, to_lower, str_eq_iff,
}
use maid_cafe.Privfs.Names.{contains_byte-matches, has_prefix-matches}
use maid_cafe.Privfs.Packages.{
  PackageGrant, valid_package_name, valid_package_verb, valid_package_manager, build_package_grant,
  collect_verbs, add_verb, check_verb,
}

-- A name that a package command accepts has no slash, equals sign, colon or at sign, and does not
-- begin with a dash: it is no path, no version pin, no qualifier and no option.
valid_package_name-plain :
    (name : Bytes)
    → valid_package_name name ≡ true
    → (contains_byte name b'/' ≡ false)
      × (contains_byte name b'=' ≡ false)
      × (contains_byte name b':' ≡ false)
      × (contains_byte name b'@' ≡ false)
      × (has_prefix name (codes "-") ≡ false)
unfolding valid_package_name
valid_package_name-plain name h = (
  contains_byte-matches _ _ 127 b'/' name refl refl h,
  contains_byte-matches _ _ 127 b'=' name refl refl h,
  contains_byte-matches _ _ 127 b':' name refl refl h,
  contains_byte-matches _ _ 127 b'@' name refl refl h,
  has_prefix-matches _ _ 127 b'-' name refl h,
)

-- the verb that an entry of the table names
abbrev pub normalise : Bytes → Bytes
normalise raw = to_lower (trim_space raw)

mem-add_verb :
    (v verb : Bytes) (verbs : List Bytes) → mem v (add_verb verb verbs) ≡ mem v (verb ∷ verbs)
unfolding add_verb mem
mem-add_verb v verb verbs = ground (arith, str_eq_iff v verb)

mem-collect_verbs :
    (v : Bytes) (raws allowed verbs : List Bytes)
    → collect_verbs raws allowed ≡ ok verbs
    → mem v verbs ≡ (mem v (map normalise raws) || mem v allowed)
unfolding collect_verbs mem
mem-collect_verbs v [] allowed verbs h = ground arith
mem-collect_verbs v (raw ∷ raws) allowed verbs h =
    let more = add_verb (normalise raw) allowed in
    ground (arith, mem-collect_verbs v raws more verbs, mem-add_verb v (normalise raw) allowed)

collect_verbs-valid :
    (v : Bytes) (raws allowed verbs : List Bytes)
    → collect_verbs raws allowed ≡ ok verbs
    → mem v (map normalise raws) ≡ true
    → valid_package_verb v ≡ true
unfolding collect_verbs mem
collect_verbs-valid v [] allowed verbs h m = cc
collect_verbs-valid v (raw ∷ raws) allowed verbs h m = ground (
  arith,
  collect_verbs-valid v raws (add_verb (normalise raw) allowed) verbs,
  str_eq_iff v (normalise raw),
)

-- A grant that is built names a known manager, the declared one in lower case, and its `CheckVerb`
-- accepts a verb exactly if the table declares it, up to case and outer spaces.
pub build_package_grant_sound :
    (raw : Bytes) (verbs : List Bytes) (g : PackageGrant)
    → build_package_grant raw verbs ≡ ok g
    → (g.manager ≡ normalise raw)
      × (valid_package_manager g.manager ≡ true)
      × ((v : Bytes) → (check_verb g v ≡ ok tt) ↔ (mem v (map normalise verbs) ≡ true))
unfolding build_package_grant check_verb mem
build_package_grant_sound raw verbs g h = (
  ground arith,
  ground arith,
  λ v. (
    λ c. ground (arith, mem-collect_verbs v verbs [] g.verbs),
    λ m.
        ground
          (arith, mem-collect_verbs v verbs [] g.verbs, collect_verbs-valid v verbs [] g.verbs),
  ),
)
