-- ===== src/Daemon/Stream/Fanout.antt =====
-- Who gets a frame: the buckets of the hub against the subscribers that there are.
use maid_cafe.Base.{
  ◌==◌, ==_iff, if◌then◌else◌, Bool-cases, ℕ, suc, ◌≤◌, ◌≡◌, refl, ◌∙◌, Bool, true, false, not,
  ◌&&◌, Option, some, Option-cases, List, [], ◌∷◌, inl, inr, arith,
}
use maid_cafe.Base.Text.{Bytes, mem}
use maid_cafe.Daemon.Stream.{
  Subscriber, StreamHub, new_stream_hub, subscribe, unsubscribe, broadcast, enter, leave, mem_id,
  remove_id, at_id, types_of, push_all, push_to, frame_of, unique_types,
}

-- how often a subscriber is in a bucket
unfoldable pub count : ℕ → List ℕ → ℕ
count id [] = 0
count id (i ∷ ids) = let rest = count id ids in if i == id then suc rest else rest

-- whether a subscriber is to get the frames of an event
pub wants : StreamHub → Bytes → ℕ → Bool
wants h event id = mem_id id h.all && mem event (types_of (h.subscriber id))

-- Each subscriber that wants an event is in its bucket, once; no other is.
pub record IsHub (h : StreamHub) : Type 0 where
  pub fresh : (id : ℕ) → h.next ≤ id → mem_id id h.all ≡ false
  pub buckets :
      (event : Bytes) (id : ℕ) → count id (h.subs event) ≡ (if wants h event id then 1 else 0)

mem_id-remove_id :
    (id j : ℕ) (ids : List ℕ) → mem_id j (remove_id id ids) ≡ (mem_id j ids && not (id == j))
unfolding mem_id remove_id
mem_id-remove_id id j [] = refl
mem_id-remove_id id j (i ∷ ids) = ground (arith, mem_id-remove_id id j ids)

count-remove_id :
    (id j : ℕ) (ids : List ℕ) → count j (remove_id id ids) ≡ (if id == j then 0 else count j ids)
unfolding count remove_id
count-remove_id id j [] = ground arith
count-remove_id id j (i ∷ ids) = ground (arith, count-remove_id id j ids)

count-enter :
    (id j : ℕ) (types : List Bytes) (subs : Bytes → List ℕ) (event : Bytes)
    → count j (enter id types subs event)
      ≡ (if mem event types && (id == j) then suc (count j (subs event)) else count j (subs event))
unfolding enter count
count-enter id j types subs event = ground arith

count-leave :
    (id j : ℕ) (types : List Bytes) (subs : Bytes → List ℕ) (event : Bytes)
    → count j (leave id types subs event)
      ≡ (if mem event types && (id == j) then 0 else count j (subs event))
unfolding leave
count-leave id j types subs event = ground (arith, count-remove_id id j (subs event))

types_of-at_id :
    (id j : ℕ) (f : Subscriber → Subscriber) (subscriber : ℕ → Option Subscriber)
    → ((s : Subscriber) → (f s).types ≡ s.types)
    → types_of (at_id id f subscriber j) ≡ types_of (subscriber j)
unfolding at_id
types_of-at_id id j f subscriber keeps = elim (Bool-cases (j == id)) [
  | inr other ↦ rw other refl
  | inl same ↦ elim (Option-cases (subscriber j)) [
    | inl absent ↦ rw (same, absent) refl
    | inr (s, e) ↦ rw (same, e) (keeps s)
  ]
]

subscribe-IsHub :
    (types : List Bytes) (limit : ℕ) (h : StreamHub) → IsHub h → IsHub (subscribe types limit h).0
unfolding subscribe mem_id wants
subscribe-IsHub types limit h i = record {
  fresh = λ id above. ground (arith, i.fresh id);
  buckets = λ event id. elim (Bool-cases (id == h.next)) [
    | inl new ↦
        rw (count-enter h.next id (unique_types [] types) h.subs event, wants, new)
          (ground (arith, new, i.buckets event id, i.fresh id))
    | inr old ↦
        rw (count-enter h.next id (unique_types [] types) h.subs event, wants, old)
          (ground (arith, old, i.buckets event id))
  ];
}

unsubscribe-IsHub : (id : ℕ) (h : StreamHub) → IsHub h → IsHub (unsubscribe id h)
unfolding unsubscribe wants
unsubscribe-IsHub id h i = elim (Bool-cases (not (mem_id id h.all))) [
  | inl gone ↦ rw gone i
  | inr there ↦
      let kept = λ (j : ℕ).
        types_of-at_id id j (λ (s : Subscriber). record s { closed = true }) h.subscriber
          (λ s. refl) in
      rw there (record {
        fresh = λ j above. ground (arith, mem_id-remove_id id j h.all, i.fresh j);
        buckets = λ event j.
            rw
              (
                count-leave id j (types_of (h.subscriber id)) h.subs event,
                mem_id-remove_id id j h.all,
                kept j,
              )
              (elim (Bool-cases (id == j)) [
                | inl same ↦ rw ((==_iff id j).0 same) (ground (arith, i.buckets event j))
                | inr other ↦ ground (arith, other, i.buckets event j)
              ]);
      })
]

at_id-other :
    (id j : ℕ) (f : Subscriber → Subscriber) (subscriber : ℕ → Option Subscriber)
    → (id == j) ≡ false
    → at_id id f subscriber j ≡ subscriber j
unfolding at_id
at_id-other id j f subscriber h = let h' : (j == id) ≡ false = ground arith in rw h' refl

at_id-same :
    (id : ℕ) (f : Subscriber → Subscriber) (subscriber : ℕ → Option Subscriber) (s : Subscriber)
    → subscriber id ≡ some s
    → at_id id f subscriber id ≡ some (f s)
unfolding at_id
at_id-same id f subscriber s h = let same : (id == id) ≡ true = ground arith in rw (same, h) refl

push_all-none :
    (ids : List ℕ) (frame : Bytes) (subscriber : ℕ → Option Subscriber) (id : ℕ)
    → count id ids ≡ 0
    → push_all ids frame subscriber id ≡ subscriber id
unfolding push_all count
push_all-none [] frame subscriber id h = refl
push_all-none (i ∷ ids) frame subscriber id h = elim (Bool-cases (i == id)) [
  | inl same ↦ absurd (ground (arith, same, h))
  | inr other ↦
      push_all-none ids frame (at_id i (push_to frame) subscriber) id (ground (arith, other, h))
      ∙ at_id-other i id (push_to frame) subscriber other
]

push_all-one :
    (ids : List ℕ) (frame : Bytes) (subscriber : ℕ → Option Subscriber) (id : ℕ) (s : Subscriber)
    → subscriber id ≡ some s
    → count id ids ≡ 1
    → push_all ids frame subscriber id ≡ some (push_to frame s)
unfolding push_all count
push_all-one [] frame subscriber id s e h = absurd (omega (arith, h))
push_all-one (i ∷ ids) frame subscriber id s e h = elim (Bool-cases (i == id)) [
  | inl same ↦
      let is_id : i ≡ id = (==_iff i id).0 same in
      push_all-none ids frame (at_id i (push_to frame) subscriber) id (ground (arith, same, h))
      ∙ rw is_id (at_id-same id (push_to frame) subscriber s e)
  | inr other ↦
      push_all-one ids frame (at_id i (push_to frame) subscriber) id s
        (at_id-other i id (push_to frame) subscriber other ∙ e) (ground (arith, other, h))
]

-- a broadcast changes no types
push_all-types :
    (ids : List ℕ) (frame : Bytes) (subscriber : ℕ → Option Subscriber) (id : ℕ)
    → types_of (push_all ids frame subscriber id) ≡ types_of (subscriber id)
unfolding push_all
push_all-types [] frame subscriber id = refl
push_all-types (i ∷ ids) frame subscriber id =
    push_all-types ids frame (at_id i (push_to frame) subscriber) id
    ∙ types_of-at_id i id (push_to frame) subscriber (λ s. refl)

broadcast-IsHub :
    (event content : Bytes) (h : StreamHub) → IsHub h → IsHub (broadcast event content h)
unfolding broadcast wants
broadcast-IsHub event content h i = record {
  fresh = i.fresh;
  buckets = λ e id.
      rw (push_all-types (h.subs event) (frame_of event content) h.subscriber id) (i.buckets e id);
}

-- what takes the lock of the hub
pub data Event : Type 0 where
  subscribes : List Bytes → ℕ → Event
  unsubscribes : ℕ → Event
  broadcasts : Bytes → Bytes → Event

unfoldable pub step_hub : Event → StreamHub → StreamHub
step_hub (subscribes types limit) h = (subscribe types limit h).0
step_hub (unsubscribes id) h = unsubscribe id h
step_hub (broadcasts event content) h = broadcast event content h

unfoldable pub run_hub : List Event → StreamHub → StreamHub
unfolding step_hub
run_hub [] h = h
run_hub (e ∷ es) h = run_hub es (step_hub e h)

step_hub-IsHub : (e : Event) (h : StreamHub) → IsHub h → IsHub (step_hub e h)
unfolding step_hub
step_hub-IsHub (subscribes types limit) h i = subscribe-IsHub types limit h i
step_hub-IsHub (unsubscribes id) h i = unsubscribe-IsHub id h i
step_hub-IsHub (broadcasts event content) h i = broadcast-IsHub event content h i

run_hub-IsHub : (es : List Event) (h : StreamHub) → IsHub h → IsHub (run_hub es h)
unfolding run_hub
run_hub-IsHub [] h i = i
run_hub-IsHub (e ∷ es) h i = run_hub-IsHub es (step_hub e h) (step_hub-IsHub e h i)

new_stream_hub-IsHub : IsHub new_stream_hub
unfolding wants mem_id count
new_stream_hub-IsHub = record { fresh = λ id above. refl; buckets = λ event id. refl }

broadcast_to :
    (event content : Bytes) (h : StreamHub) (id : ℕ) (s : Subscriber)
    → IsHub h
    → h.subscriber id ≡ some s
    → (broadcast event content h).subscriber id
      ≡ some
          (if mem_id id h.all && mem event s.types then push_to (frame_of event content) s else s)
unfolding broadcast wants
broadcast_to event content h id s i e =
    let held : count id (h.subs event) ≡ (if mem_id id h.all && mem event s.types then 1 else 0) =
      rw e at (i.buckets event id) in
    elim (Bool-cases (mem_id id h.all && mem event s.types)) [
      | inl wanted ↦ rw wanted (
          push_all-one (h.subs event) (frame_of event content) h.subscriber id s e
            (rw wanted at held))
      | inr unwanted ↦ rw unwanted (
          push_all-none (h.subs event) (frame_of event content) h.subscriber id
            (rw unwanted at held)
          ∙ e)
    ]

-- After any sequence of subscriptions, their ends and broadcasts, a broadcast queues its frame, once,
-- for each subscriber that has not ended and asked for the event, and leaves every other one as it is.
pub run_hub-fans_out :
    (es : List Event) (event content : Bytes) (id : ℕ) (s : Subscriber)
    → (run_hub es new_stream_hub).subscriber id ≡ some s
    → (broadcast event content (run_hub es new_stream_hub)).subscriber id
      ≡ some (
          if mem_id id (run_hub es new_stream_hub).all && mem event s.types
          then push_to (frame_of event content) s
          else s)
run_hub-fans_out es event content id s e =
    broadcast_to event content (run_hub es new_stream_hub) id s
      (run_hub-IsHub es new_stream_hub new_stream_hub-IsHub) e
