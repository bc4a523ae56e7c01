-- ===== src/Privfs/Tests/PathTests.antt =====
-- `safeRel` of internal/privfs/privfs.go on some paths.
use maid_cafe.Base.{◌≡◌, refl, err, List, ◌≢◌, [], All}
use maid_cafe.Base.Text.{Bytes, codes, join, str_eq, contains_byte}
use maid_cafe.Base.Filepath.Elements.{Proper}
use maid_cafe.Privfs.Path.{safe_rel, outside}
use maid_cafe.Privfs.Path.Confined.{by_walk, safe_rel-by_walk, safe_rel-Proper}
use maid_cafe.Base.Filepath.{is_abs, clean}

climbs_out : safe_rel (codes "a/../../etc") ≡ err outside
unfolding safe_rel str_eq contains_byte is_abs clean
climbs_out = refl

comes_back : safe_rel (codes "../site") ≡ err outside
unfolding safe_rel str_eq contains_byte is_abs clean
comes_back = refl

safe_rel-by_walk_example : safe_rel (codes "a/../b//./c") ≡ by_walk (codes "a/../b//./c")
safe_rel-by_walk_example = safe_rel-by_walk (codes "a/../b//./c")

safe_rel-Proper_example :
    (names : List Bytes) × (names ≢ []) × All Proper names × (codes "b/c" ≡ join (codes "/") names)
unfolding safe_rel str_eq contains_byte is_abs clean
safe_rel-Proper_example = safe_rel-Proper (codes "a/../b//./c") (codes "b/c") refl
