-- ===== src/Daemon/Stream/Queue.antt =====
-- The queue of one subscriber, while frames are pushed and received.
use maid_cafe.Base.{
  ltb, Bool-cases, length, drop, length-append, length-drop, drop-append, drop-drop, ℕ, ◌+◌, ◌≤◌,
  ◌<◌, ◌≡◌, refl, ap, ◌∙◌, inl, inr, List, [], ◌∷◌, ◌++◌, arith,
}
use maid_cafe.Base.Text.{Bytes}
use maid_cafe.Daemon.Stream.{subscriber_buffer_size, push_locked}

-- what happens to a channel: a frame is pushed, or the client receives one
pub data Event : Type 0 where
  pushes : Bytes → Event
  receives : Event

-- the channel, and all frames that were pushed
pub record Channel : Type 0 where
  pub queue : List Bytes
  pub pushed : List Bytes

-- Receiving takes the oldest frame, where there is one.
unfoldable pub step_channel : Event → Channel → Channel
step_channel (pushes frame) c = record {
  queue = push_locked frame c.queue;
  pushed = c.pushed ++ (frame ∷ []);
}
step_channel receives c = record c { queue = drop 1 c.queue }

unfoldable pub run_channel : List Event → Channel → Channel
unfolding step_channel
run_channel [] c = c
run_channel (e ∷ es) c = run_channel es (step_channel e c)

-- What waits is the end of what was pushed, without gaps, and no more than the buffer holds.
pub record IsLatest (c : Channel) : Type 0 where
  pub before : ℕ
  pub within : before ≤ length c.pushed
  pub tail : c.queue ≡ drop before c.pushed
  pub bounded : length c.queue ≤ subscriber_buffer_size

drop-empty : (xs : List Bytes) → length xs ≡ 0 → drop 1 xs ≡ xs
drop-empty [] h = refl
drop-empty (x ∷ xs) h = absurd (omega (arith, h))

drop-one : (k : ℕ) (xs : List Bytes) → drop 1 (drop k xs) ≡ drop (k + 1) xs
drop-one k xs = drop-drop 1 k xs

push_locked-IsLatest :
    (frame : Bytes) (c : Channel) → IsLatest c → IsLatest (step_channel (pushes frame) c)
unfolding step_channel push_locked
push_locked-IsLatest frame c h = elim (Bool-cases (ltb (length c.queue) subscriber_buffer_size)) [
  | inl room ↦ rw room (record {
    before = h.before;
    within = omega (arith, length-append c.pushed (frame ∷ []), h.within);
    tail = rw (h.tail, drop-append h.before c.pushed (frame ∷ []) h.within) refl;
    bounded = ground (arith, length-append c.queue (frame ∷ []));
  })
  | inr full ↦
      let some_left : h.before < length c.pushed =
        ground (arith, length-drop h.before c.pushed, ap (λ (q : List Bytes). length q) h.tail) in
      rw full (record {
        before = h.before + 1;
        within = omega (arith, length-append c.pushed (frame ∷ []), h.within);
        tail =
            rw
              (
                h.tail,
                drop-one h.before c.pushed,
                drop-append (h.before + 1) c.pushed (frame ∷ []) (omega (arith, some_left)),
              )
              refl;
        bounded =
            omega (
              arith,
              length-append (drop 1 c.queue) (frame ∷ []),
              length-drop 1 c.queue,
              h.bounded,
            );
      })
]

receive-IsLatest : (c : Channel) → IsLatest c → IsLatest (step_channel receives c)
unfolding step_channel
receive-IsLatest c h = elim (Bool-cases (ltb h.before (length c.pushed))) [
  | inl more ↦ record {
    before = h.before + 1;
    within = ground arith;
    tail = rw (h.tail, drop-one h.before c.pushed) refl;
    bounded = omega (arith, length-drop 1 c.queue, h.bounded);
  }
  | inr done ↦
      let none_left : length c.queue ≡ 0 =
        ground (arith, length-drop h.before c.pushed, ap (λ (q : List Bytes). length q) h.tail) in
      record {
        before = h.before;
        within = h.within;
        tail = drop-empty c.queue none_left ∙ h.tail;
        bounded = omega (arith, length-drop 1 c.queue, h.bounded);
      }
]

-- Whatever the order in which frames are pushed and received: what waits in the channel of a
-- subscriber is at most eight frames, and they are the last ones that were pushed, in order and with
-- none missing between them.
pub run_channel-IsLatest :
    (es : List Event) (c : Channel) → IsLatest c → IsLatest (run_channel es c)
unfolding run_channel
run_channel-IsLatest [] c h = h
run_channel-IsLatest (pushes frame ∷ es) c h =
    run_channel-IsLatest es (step_channel (pushes frame) c) (push_locked-IsLatest frame c h)
run_channel-IsLatest (receives ∷ es) c h =
    run_channel-IsLatest es (step_channel receives c) (receive-IsLatest c h)
