-- ===== src/Daemon/TaskStore/Evict.antt =====
-- The loop of `add` that drops old tasks: what it leaves.
use maid_cafe.Base.{
  All, ℕ, ◌≡◌, refl, false, List, [], ◌∷◌, arith, Bool-cases, Bool, filter, not, take, true, inl,
  length, ◌≤◌, inr, ◌-◌, ◌<◌, ◌∙◌, suc, filter_no, filter_yes, ap, leb, &&_split, sym, ltb→lt, zero,
}
use maid_cafe.Base.Text.{Bytes, str_eq, str_eq_iff}
use maid_cafe.Daemon.Tasks.{Task}
use maid_cafe.Daemon.TaskStore.{lookup, evict, is_over, evicts, task_history_limit, delete}
use maid_cafe.Daemon.TaskStore.Map.{lookup-delete, is_over-lookup}
use Prim.Native.Nat.{min}

-- an id is not among others
abbrev pub Lacks : Bytes → List Bytes → Type 0
Lacks id ids = All (λ other. str_eq id other ≡ false) ids

abbrev pub Distinct : List Bytes → Type 0
Distinct [] = Unit
Distinct (id ∷ ids) = Lacks id ids × Distinct ids

-- Eviction leaves alone what is not in the ids that it goes over.
lookup-evict :
    (k : Bytes) (ids : List Bytes) (m : List (Bytes × Task)) (over : ℕ)
    → All (λ id. str_eq id k ≡ false) ids
    → lookup k (evict ids m over).1 ≡ lookup k m
unfolding evict
lookup-evict k [] m over h = refl
lookup-evict k (id ∷ ids) m over (h, hs) =
    ground (arith, lookup-evict k ids m over hs, lookup-delete id k (evict ids m over).1)

-- What is true of all the ids is true of the ones that are left.
pub All-evict {ℓ} :
    (P : Bytes → Type ℓ) (ids : List Bytes) (m : List (Bytes × Task)) (over : ℕ)
    → All P ids
    → All P (evict ids m over).0
unfolding evict
All-evict P [] m over h = h
All-evict P (id ∷ ids) m over (h, hs) =
    elim (Bool-cases (evicts id (evict ids m over).1 (evict ids m over).2)) [
      | inl gone ↦ rw gone (All-evict P ids m over hs)
      | inr stays ↦ rw stays (h, All-evict P ids m over hs)
    ]

abbrev pub is_live : List (Bytes × Task) → Bytes → Bool
is_live m id = not (is_over m id)

Lacks-sym : (id : Bytes) (ids : List Bytes) → Lacks id ids → All (λ k. str_eq k id ≡ false) ids
Lacks-sym id [] h = tt
Lacks-sym id (k ∷ ids) (h, hs) =
    (ground (arith, str_eq_iff k id, str_eq_iff id k), Lacks-sym id ids hs)

-- What eviction leaves: the first of the tasks that are over, all the others, and every task as it
-- was.
pub record Evicted (ids : List Bytes) (m : List (Bytes × Task)) (over : ℕ) : Type 0 where
  pub newest :
      filter (is_over m) (evict ids m over).0
      ≡ take
          (length (filter (is_over m) ids) - (over - task_history_limit))
          (filter (is_over m) ids)
  pub live : filter (is_live m) (evict ids m over).0 ≡ filter (is_live m) ids
  pub left :
      (evict ids m over).2
      ≡ over - min (length (filter (is_over m) ids)) (over - task_history_limit)
  pub same : All (λ k. lookup k (evict ids m over).1 ≡ lookup k m) (evict ids m over).0

same-delete :
    (id : Bytes) (kept : List Bytes) (m m' : List (Bytes × Task))
    → Lacks id kept
    → All (λ k. lookup k m' ≡ lookup k m) kept
    → All (λ k. lookup k (delete id m') ≡ lookup k m) kept
same-delete id [] m m' hl h = tt
same-delete id (k ∷ kept) m m' (l, hl) (h, hs) =
    (ground (arith, lookup-delete id k m'), same-delete id kept m m' hl hs)

Evicted-gone :
    (id : Bytes) (ids : List Bytes) (m : List (Bytes × Task)) (over : ℕ)
    → Lacks id ids
    → is_over m id ≡ true
    → task_history_limit < (evict ids m over).2
    → evict (id ∷ ids) m over
      ≡ ((evict ids m over).0, delete id (evict ids m over).1, (evict ids m over).2 - 1)
    → Evicted ids m over
    → Evicted (id ∷ ids) m over
Evicted-gone id ids m over lacks p more e r =
    let count = length (filter (is_over m) ids) in
    let surplus = over - task_history_limit in
    let none_new : suc count - surplus ≡ 0 = omega (arith, r.left, more) in
    let none_old : count - surplus ≡ 0 = omega (arith, r.left, more) in
    let over_too = filter_yes (is_over m) id ids p in
    let not_live = filter_no (is_live m) id ids (rw p refl) in
    record {
      newest =
          rw (e, over_too, none_new)
            (r.newest ∙ ap (λ (k : ℕ). take k (filter (is_over m) ids)) none_old);
      live = rw (e, not_live) r.live;
      left = rw (e, over_too) (omega (arith, r.left, more));
      same = rw e (
          same-delete id (evict ids m over).0 m (evict ids m over).1
            (All-evict (λ other. str_eq id other ≡ false) ids m over lacks) r.same);
    }

Evicted-kept :
    (id : Bytes) (ids : List Bytes) (m : List (Bytes × Task)) (over : ℕ)
    → is_over m id ≡ true
    → (evict ids m over).2 ≤ task_history_limit
    → lookup id (evict ids m over).1 ≡ lookup id m
    → evict (id ∷ ids) m over
      ≡ (id ∷ (evict ids m over).0, (evict ids m over).1, (evict ids m over).2)
    → Evicted ids m over
    → Evicted (id ∷ ids) m over
Evicted-kept id ids m over p few own e r =
    let count = length (filter (is_over m) ids) in
    let surplus = over - task_history_limit in
    let one_more : suc count - surplus ≡ suc (count - surplus) = omega (arith, r.left, few) in
    let over_too = filter_yes (is_over m) id ids p in
    let here = filter_yes (is_over m) id (evict ids m over).0 p in
    let not_live = filter_no (is_live m) id ids (rw p refl) in
    let not_here = filter_no (is_live m) id (evict ids m over).0 (rw p refl) in
    record {
      newest = rw (e, over_too, here, one_more) (ap (λ ks. id ∷ ks) r.newest);
      live = rw (e, not_live, not_here) r.live;
      left = rw (e, over_too) (omega (arith, r.left, few));
      same = rw e (own, r.same);
    }

Evicted-live :
    (id : Bytes) (ids : List Bytes) (m : List (Bytes × Task)) (over : ℕ)
    → is_over m id ≡ false
    → lookup id (evict ids m over).1 ≡ lookup id m
    → evict (id ∷ ids) m over
      ≡ (id ∷ (evict ids m over).0, (evict ids m over).1, (evict ids m over).2)
    → Evicted ids m over
    → Evicted (id ∷ ids) m over
Evicted-live id ids m over p own e r =
    let not_over = filter_no (is_over m) id ids p in
    let not_here = filter_no (is_over m) id (evict ids m over).0 p in
    let live_too = filter_yes (is_live m) id ids (rw p refl) in
    let here = filter_yes (is_live m) id (evict ids m over).0 (rw p refl) in
    record {
      newest = rw (e, not_over, not_here) r.newest;
      live = rw (e, live_too, here) (ap (λ ks. id ∷ ks) r.live);
      left = rw (e, not_over) r.left;
      same = rw e (own, r.same);
    }

take-nil {ℓ} : {A : Type ℓ} (n : ℕ) → take {A = A} n [] ≡ []
take-nil zero = refl
take-nil (suc n) = refl

take-length {ℓ} : {A : Type ℓ} (n : ℕ) (xs : List A) → length xs ≤ n → take n xs ≡ xs
take-length n [] h = take-nil n
take-length zero (x ∷ xs) h = absurd (omega arith)
take-length (suc n) (x ∷ xs) h = ap (λ ys. x ∷ ys) (take-length n xs (omega arith))

pub take_newest {ℓ} :
    {A : Type ℓ} (limit : ℕ) (xs : List A)
    → take (length xs - (length xs - limit)) xs ≡ take limit xs
take_newest limit xs = elim (Bool-cases (leb limit (length xs))) [
  | inl fits ↦
      let e : length xs - (length xs - limit) ≡ limit = ground arith in ap (λ n. take n xs) e
  | inr short ↦
      let e : length xs - (length xs - limit) ≡ length xs = ground arith in
      ap (λ n. take n xs) e
      ∙ (take-length (length xs) xs (omega arith) ∙ sym (take-length limit xs (ground arith)))
]

few_left :
    (id : Bytes) (m : List (Bytes × Task)) (over : ℕ)
    → evicts id m over ≡ false
    → is_over m id ≡ true
    → over ≤ task_history_limit
few_left id m over stays p = ground arith

evict_gone :
    (id : Bytes) (ids : List Bytes) (m : List (Bytes × Task)) (over : ℕ)
    → evicts id (evict ids m over).1 (evict ids m over).2 ≡ true
    → evict (id ∷ ids) m over
      ≡ ((evict ids m over).0, delete id (evict ids m over).1, (evict ids m over).2 - 1)
unfolding evict
evict_gone id ids m over gone = rw gone refl

evict_stays :
    (id : Bytes) (ids : List Bytes) (m : List (Bytes × Task)) (over : ℕ)
    → evicts id (evict ids m over).1 (evict ids m over).2 ≡ false
    → evict (id ∷ ids) m over
      ≡ (id ∷ (evict ids m over).0, (evict ids m over).1, (evict ids m over).2)
unfolding evict
evict_stays id ids m over stays = rw stays refl

pub evict-Evicted :
    (ids : List Bytes) (m : List (Bytes × Task)) (over : ℕ) → Distinct ids → Evicted ids m over
evict-Evicted [] m over d =
    unfold evict filter in
    record {
      newest = sym (take-nil (0 - (over - task_history_limit)));
      live = refl;
      left = omega arith;
      same = tt;
    }
evict-Evicted (id ∷ ids) m over (lacks, d) =
    let r = evict-Evicted ids m over d in
    let own = lookup-evict id ids m over (Lacks-sym id ids lacks) in
    let as_before = is_over-lookup id m (evict ids m over).1 own in
    elim (Bool-cases (evicts id (evict ids m over).1 (evict ids m over).2)) [
      | inl gone ↦
          let (more, p) = &&_split _ _ gone in
          Evicted-gone id ids m over lacks (sym as_before ∙ p) (ltb→lt _ _ more)
            (evict_gone id ids m over gone) r
      | inr stays ↦ elim (Bool-cases (is_over m id)) [
        | inl p ↦
            Evicted-kept id ids m over p
              (few_left id (evict ids m over).1 (evict ids m over).2 stays (as_before ∙ p)) own
              (evict_stays id ids m over stays) r
        | inr p ↦ Evicted-live id ids m over p own (evict_stays id ids m over stays) r
      ]
    ]

pub Distinct-evict :
    (ids : List Bytes) (m : List (Bytes × Task)) (over : ℕ)
    → Distinct ids
    → Distinct (evict ids m over).0
unfolding evict
Distinct-evict [] m over d = d
Distinct-evict (id ∷ ids) m over (lacks, d) =
    elim (Bool-cases (evicts id (evict ids m over).1 (evict ids m over).2)) [
      | inl gone ↦ rw gone (Distinct-evict ids m over d)
      | inr stays ↦ rw stays (
        All-evict (λ other. str_eq id other ≡ false) ids m over lacks,
        Distinct-evict ids m over d,
      )
    ]
