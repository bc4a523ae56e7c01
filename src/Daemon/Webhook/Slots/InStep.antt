-- ===== src/Daemon/Webhook/Slots/InStep.antt =====
-- The slots through any interleaving of runs that start and end.
use maid_cafe.Base.{
  ap, ◌<◌, ◌-◌, Bool-cases, inl, inr, List, [], ◌∷◌, refl, suc, zero, ltb, if◌then◌else◌, ℕ, Bool,
  true, false, Option, none, some, ◌≡◌, ◌≤◌, arith,
}
use maid_cafe.Daemon.Webhook.Slots.{Slots, set_max_concurrent_runs, acquire_slot, release_slot}

-- what takes the lock: a run that wants to start, and one of those under way that ends
pub data Event : Type 0 where
  starts ends : Event

-- the slots, the runs under way, and whether a release waits for ever, which stops all others
pub record Pool : Type 0 where
  pub slots : Slots
  pub running : ℕ
  pub refused : ℕ
  pub stuck : Bool

released : Option Slots → Pool → Pool
released none s = record s { stuck = true }
released (some slots) s = record s { slots = slots; running = s.running - 1 }

-- A run under way ends; where none is, none can.
unfoldable pub step_pool : Event → Pool → Pool
unfolding released
step_pool starts s =
    if (acquire_slot s.slots).1
    then record s { slots = (acquire_slot s.slots).0; running = suc s.running }
    else record s { refused = suc s.refused }
step_pool ends s = if ltb 0 s.running then released (release_slot s.slots) s else s

unfoldable pub run_pool : List Event → Pool → Pool
unfolding step_pool
run_pool [] s = s
run_pool (e ∷ es) s = run_pool es (step_pool e s)

abbrev pub new_pool : ℕ → Pool
new_pool n = record { slots = set_max_concurrent_runs n; running = 0; refused = 0; stuck = false }

-- There is a token for each run under way, no more runs than slots, and nothing waits for ever.
pub record IsInStep (n : ℕ) (s : Pool) : Type 0 where
  pub capacity : s.slots.capacity ≡ n
  pub tokens : s.slots.tokens ≡ s.running
  pub bounded : s.running ≤ n
  pub free : s.stuck ≡ false

release_slot-some :
    (s : Slots) → 0 < s.tokens → release_slot s ≡ some (record s { tokens = s.tokens - 1 })
unfolding release_slot
release_slot-some s h = go s.tokens h
  where
    go :
        (n : ℕ)
        → 0 < n
        → ◌≡◌ {A = Option Slots}
            (elim n [ zero ↦ none | suc m ↦ some (record s { tokens = m }) ])
            (some (record s { tokens = n - 1 }))
    go zero h = absurd (omega (arith, h))
    go (suc m) h = let e : suc m - 1 ≡ m = omega arith in rw e refl

step_pool-IsInStep : (n : ℕ) (e : Event) (s : Pool) → IsInStep n s → IsInStep n (step_pool e s)
unfolding step_pool acquire_slot released
step_pool-IsInStep n starts s h = elim (Bool-cases (ltb s.slots.tokens s.slots.capacity)) [
  | inl room ↦ rw room (record {
    capacity = h.capacity;
    tokens = ap suc h.tokens;
    bounded = ground (arith, h.tokens, h.capacity);
    free = h.free;
  })
  | inr full ↦
      rw full
        (record { capacity = h.capacity; tokens = h.tokens; bounded = h.bounded; free = h.free })
]
step_pool-IsInStep n ends s h = elim (Bool-cases (ltb 0 s.running)) [
  | inl some_run ↦
      let held : 0 < s.slots.tokens = ground (arith, h.tokens) in
      rw (some_run, release_slot-some s.slots held)
        (record {
          capacity = h.capacity;
          tokens = ap (λ (k : ℕ). k - 1) h.tokens;
          bounded = omega (arith, h.bounded);
          free = h.free;
        })
  | inr no_run ↦ rw no_run h
]

run_pool-IsInStep : (n : ℕ) (es : List Event) (s : Pool) → IsInStep n s → IsInStep n (run_pool es s)
unfolding run_pool
run_pool-IsInStep n [] s h = h
run_pool-IsInStep n (e ∷ es) s h =
    run_pool-IsInStep n es (step_pool e s) (step_pool-IsInStep n e s h)

new_pool-IsInStep : (n : ℕ) → IsInStep n (new_pool n)
unfolding set_max_concurrent_runs
new_pool-IsInStep n = record { capacity = refl; tokens = refl; bounded = omega arith; free = refl }

acquire_slot-room : (n : ℕ) (s : Pool) → IsInStep n s → (acquire_slot s.slots).1 ≡ ltb s.running n
unfolding acquire_slot
acquire_slot-room n s h = ground (arith, h.tokens, h.capacity)

-- As long as the number of slots is not changed while a run is under way, whatever the order in which
-- runs start and end: at most that many are under way, a run that wants to start is let in exactly if
-- fewer are, and the release of a slot never waits.
pub run_pool-lets_in :
    (n : ℕ) (es : List Event)
    → ((run_pool es (new_pool n)).running ≤ n)
      × ((acquire_slot (run_pool es (new_pool n)).slots).1
          ≡ ltb (run_pool es (new_pool n)).running n)
      × ((run_pool es (new_pool n)).stuck ≡ false)
run_pool-lets_in n es =
    let h = run_pool-IsInStep n es (new_pool n) (new_pool-IsInStep n) in
    (h.bounded, acquire_slot-room n (run_pool es (new_pool n)) h, h.free)
