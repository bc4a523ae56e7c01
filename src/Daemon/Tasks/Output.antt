-- ===== src/Daemon/Tasks/Output.antt =====
-- The retained output against everything that the run has written.
use maid_cafe.Base.{
  ℕ, ◌+◌, ◌-◌, ◌≤◌, Bool, true, false, ◌++◌, ◌≡◌, refl, arith, length, drop, length-append,
  length-drop, drop-append, drop-drop, Bool-cases, inl, inr, ltb, ap, if◌then◌else◌, sym, take,
  take-append-drop,
}
use Prim.Native.Nat.{min}
use maid_cafe.Base.Text.{Bytes}
use maid_cafe.Base.Int.{ℤ, pos, negsuc}
use maid_cafe.Daemon.Tasks.{Task, task_output_limit, write, output_since}

-- `history` is what the run has written: the task counts it and keeps the end of it.
pub record Retains (t : Task) (history : Bytes) : Type 0 where
  pub counted : t.written ≡ length history
  pub kept : t.output ≡ drop (length history - task_output_limit) history

-- the end of the end, with more behind it, is the end of the whole
drop-tail :
    (limit : ℕ) (h p : Bytes)
    → drop (length (drop (length h - limit) h ++ p) - limit) (drop (length h - limit) h ++ p)
      ≡ drop (length (h ++ p) - limit) (h ++ p)
drop-tail limit h p =
    let k = length h - limit in
    let le : k ≤ length h = omega arith in
    let j = length (drop k h ++ p) - limit in
    let total : k + j ≡ length (h ++ p) - limit =
      omega (arith, length-append (drop k h) p, length-append h p, length-drop k h) in
    rw (← total) (rw (← drop-drop j k (h ++ p)) (ap (drop j) (sym (drop-append k h p le))))

-- the cut of `Write`, without its test
cut_lem :
    (limit : ℕ) (o : Bytes)
    → (if ltb limit (length o) then drop (length o - limit) o else o) ≡ drop (length o - limit) o
cut_lem limit o = elim (Bool-cases (ltb limit (length o))) [
  | inl over ↦ rw over
  | inr fits ↦ let none_over : length o - limit ≡ 0 = ground arith in rw (fits, none_over)
]

-- A write keeps the account: the count grows by the bytes written, and the retained output is the
-- last `taskOutputLimit` bytes of the longer history.
pub write-Retains :
    (p history : Bytes) (t : Task) → Retains t history → Retains (write p t).0 (history ++ p)
unfolding write
write-Retains p history t r = record {
  counted = omega (arith, length-append history p, r.counted);
  kept =
      rw (cut_lem task_output_limit (t.output ++ p), r.kept)
        (drop-tail task_output_limit history p);
}

length-output :
    (history : Bytes) (t : Task)
    → Retains t history
    → t.written - length t.output ≡ length history - task_output_limit
length-output history t r =
    rw (r.kept, r.counted) (omega (arith, length-drop (length history - task_output_limit) history))

-- What a client is owed that has read up to an offset, from all that the run has written: what lies
-- behind the offset while that is retained, the whole retained output when the offset lies before
-- it, with a note to replace what the client has, and no note when the offset is negative.
pub catch_up : ℤ → Bytes → Bytes × ℕ × Bool
catch_up (negsuc n) history =
    let from = length history - task_output_limit in (drop from history, from, false)
catch_up (pos since) history =
    let from = length history - task_output_limit in
    if ltb since from
    then (drop from history, from, true)
    else (drop (min since (length history)) history, min since (length history), false)

behind :
    (from upto : ℕ) (history : Bytes)
    → from ≤ upto
    → drop (upto - from) (drop from history) ≡ drop upto history
behind from upto history h =
    let e : from + (upto - from) ≡ upto = omega arith in
    rw (drop-drop (upto - from) from history) (ap (λ n. drop n history) e)

-- `outputSince` answers from the retained output as `catch_up` does from the whole history: on
-- every offset, a negative one, one that has fallen behind the retained output and one beyond the
-- end included.
pub output_since-catch_up :
    (since : ℤ) (history : Bytes) (t : Task)
    → Retains t history
    → output_since since t ≡ catch_up since history
unfolding output_since catch_up
output_since-catch_up (negsuc n) history t r = rw (length-output history t r, r.kept) refl
output_since-catch_up (pos since) history t r =
    let from = length history - task_output_limit in
    rw (length-output history t r) (elim (Bool-cases (ltb since from)) [
      | inl late ↦ rw (late, r.kept) refl
      | inr held ↦
          let ge : from ≤ since = ground arith in
          let upto : (if ltb t.written since then t.written else since)
              ≡ min since (length history) =
            ground arith in
          let size : length t.output ≡ length history - from =
            rw r.kept (length-drop from history) in
          let offset : (if ltb (length t.output) (min since (length history) - from)
                then length t.output
                else min since (length history) - from)
              ≡ min since (length history) - from =
            ground arith in
          rw (held, upto, offset, r.kept)
            (ap (λ chunk. (chunk, min since (length history), false))
              (behind from (min since (length history)) history (omega arith)))
    ])

catch_up_extends :
    (since : ℕ) (history : Bytes)
    → since ≤ length history
    → (catch_up (pos since) history).2 ≡ false
    → take since history ++ (catch_up (pos since) history).0 ≡ history
unfolding catch_up
catch_up_extends since history le kept =
    elim (Bool-cases (ltb since (length history - task_output_limit))) [
      | inl late ↦ cc (rw late at kept)
      | inr held ↦
          let reach : min since (length history) ≡ since = omega arith in
          rw (held, reach) (take-append-drop since history)
    ]

-- A client that has read up to an offset which the history has reached and the output still holds
-- has the whole history when it appends what `outputSince` returns.
pub output_since_extends :
    (since : ℕ) (history : Bytes) (t : Task)
    → Retains t history
    → since ≤ length history
    → (output_since (pos since) t).2 ≡ false
    → take since history ++ (output_since (pos since) t).0 ≡ history
output_since_extends since history t r le kept =
    let same = output_since-catch_up (pos since) history t r in
    rw same (catch_up_extends since history le (rw same at kept))
