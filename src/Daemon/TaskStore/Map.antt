-- ===== src/Daemon/TaskStore/Map.antt =====
-- The laws of the association list.
use maid_cafe.Base.{if◌then◌else◌, ◌≡◌, refl, none, some, List, [], ◌∷◌, arith}
use maid_cafe.Base.Text.{Bytes, str_eq, str_eq_iff}
use maid_cafe.Daemon.Tasks.{Task}
use maid_cafe.Daemon.TaskStore.{lookup, delete, insert, is_over}

pub lookup-delete :
    (id k : Bytes) (m : List (Bytes × Task))
    → lookup k (delete id m) ≡ (if str_eq id k then none else lookup k m)
unfolding lookup delete
lookup-delete id k [] = ground arith
lookup-delete id k ((j, t) ∷ m) =
    ground (arith, lookup-delete id k m, str_eq_iff j id, str_eq_iff j k, str_eq_iff id k)

pub lookup-insert :
    (id k : Bytes) (t : Task) (m : List (Bytes × Task))
    → lookup k (insert id t m) ≡ (if str_eq id k then some t else lookup k m)
unfolding lookup insert
lookup-insert id k t m = ground (arith, lookup-delete id k m)

pub is_over-lookup :
    (k : Bytes) (m m' : List (Bytes × Task)) → lookup k m' ≡ lookup k m → is_over m' k ≡ is_over m k
unfolding is_over
is_over-lookup k m m' h = rw (h, is_over) refl
