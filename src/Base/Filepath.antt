-- ===== src/Base/Filepath.antt =====
-- `path/filepath` on Unix: `IsAbs` and `Clean`. `Clean` works on the elements between slashes, with
-- the cleaned elements on a stack, the last one first.
pub mod Elements
pub mod Rooted
use maid_cafe.Base.Tests.{if◌then◌else◌}
use mathlib.Core.Bool.{Bool, true, false, ◌||◌}
use mathlib.Core.List.{List, [], ◌∷◌, ◌++◌, reverse}
use maid_cafe.Base.Text.{Bytes, codes, str_eq, has_prefix, split, join}
use maid_cafe.Base.{Bool, List, if◌then◌else◌, ◌∷◌, ◌++◌, ◌||◌, []}

unfoldable pub is_abs : Bytes → Bool
unfolding has_prefix
is_abs path = has_prefix path (codes "/")

-- one element: an empty one and `.` are dropped, `..` removes the element before it, if that is no
-- `..` itself; at the front it is dropped from a rooted path and kept in another
unfoldable pub clean_step : Bool → Bytes → List Bytes → List Bytes
clean_step rooted elem [] =
    if str_eq elem [] || str_eq elem (codes ".")
    then []
    else if str_eq elem (codes "..")
    then (if rooted then [] else elem ∷ [])
    else elem ∷ []
clean_step rooted elem (top ∷ stack) =
    if str_eq elem [] || str_eq elem (codes ".")
    then top ∷ stack
    else if str_eq elem (codes "..")
    then (if str_eq top (codes "..") then elem ∷ top ∷ stack else stack)
    else elem ∷ top ∷ stack

unfoldable pub clean_elems : Bool → List Bytes → List Bytes → List Bytes
unfolding clean_step
clean_elems rooted [] stack = stack
clean_elems rooted (elem ∷ elems) stack = clean_elems rooted elems (clean_step rooted elem stack)

-- the text of a path from its cleaned elements
unfoldable pub render : Bool → List Bytes → Bytes
unfolding join
render true elems = codes "/" ++ join (codes "/") elems
render false [] = codes "."
render false (e ∷ es) = join (codes "/") (e ∷ es)

unfoldable pub clean : Bytes → Bytes
unfolding clean_elems render split is_abs
clean path = render (is_abs path) (reverse (clean_elems (is_abs path) (split b'/' path) []))
