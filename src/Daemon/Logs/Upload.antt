-- ===== src/Daemon/Logs/Upload.antt =====
-- The upload buffer through any interleaving of added lines with one upload at a time.
use maid_cafe.Base.{
  ltb, leb, ◌==◌, if◌then◌else◌, Bool-cases, length, drop, length-append, take-append-drop,
  Option-cases, ℕ, ◌≤◌, ◌≡◌, refl, sym, ap, ◌∙◌, inl, inr, Bool, true, false, not, ◌||◌, Option,
  none, some, List, [], ◌∷◌, ◌++◌, append_assoc, arith,
}
use maid_cafe.Base.Text.{Bytes}
use maid_cafe.Daemon.Logs.{
  LogLine, LogUploadEntry, LogUploadBuffer, pending_limit, entries_of, trim_pending, add_lines,
  begin_flush, end_flush, waits,
}

-- the buffer, the batch on its way, all that was uploaded, and all that was added
pub record UploadState : Type 0 where
  pub buffer : LogUploadBuffer
  pub batch : Option (List LogUploadEntry)
  pub uploaded : List LogUploadEntry
  pub added : List LogUploadEntry

-- what takes the lock: added lines, the start of an upload, and the answer to it
pub data Event : Type 0 where
  adds : Bytes → List LogLine → Event
  begins : Bool → ℕ → ℕ → ℕ → Event
  answers : Bool → Event

-- One goroutine uploads: a flush begins when no batch is on its way. Lines may be added while one is.
unfoldable pub step_event : Event → UploadState → UploadState
step_event (adds container lines) s = record s {
  buffer = add_lines container lines s.buffer;
  added = s.added ++ entries_of container lines;
}
step_event (begins enabled interval max_lines now) s = elim s.batch [
  | some batch ↦ s
  | none ↦ record s {
    buffer = (begin_flush enabled interval max_lines now s.buffer).0;
    batch = (begin_flush enabled interval max_lines now s.buffer).1;
  }
]
step_event (answers sent) s = elim s.batch [
  | none ↦ s
  | some batch ↦ record s {
    buffer = end_flush sent batch s.buffer;
    batch = none;
    uploaded = if sent then s.uploaded ++ batch else s.uploaded;
  }
]

unfoldable pub run_events : List Event → UploadState → UploadState
unfolding step_event
run_events [] s = s
run_events (e ∷ es) s = run_events es (step_event e s)

-- an event does not take the buffer past its limit
unfoldable pub Fits : Event → UploadState → Type 0
Fits (adds container lines) s =
    length (s.buffer.pending ++ entries_of container lines) ≤ pending_limit
Fits (begins enabled interval max_lines now) s = Unit
Fits (answers sent) s = Unit

-- none of the events does
unfoldable pub AllFit : List Event → UploadState → Type 0
unfolding Fits step_event
AllFit [] s = Unit
AllFit (e ∷ es) s = Fits e s × AllFit es (step_event e s)

-- a batch on its way is still the front of what is pending
unfoldable pub AtFront : Option (List LogUploadEntry) → List LogUploadEntry → Type 0
AtFront none pending = Unit
AtFront (some batch) pending = (rest : List LogUploadEntry) × (pending ≡ batch ++ rest)

-- All that was added is what was uploaded, followed by what is pending.
pub record IsExact (s : UploadState) : Type 0 where
  pub exact : s.uploaded ++ s.buffer.pending ≡ s.added
  pub front : AtFront s.batch s.buffer.pending

AtFront-append :
    (batch : Option (List LogUploadEntry)) (pending more : List LogUploadEntry)
    → AtFront batch pending
    → AtFront batch (pending ++ more)
unfolding AtFront
AtFront-append none pending more h = tt
AtFront-append (some batch) pending more (rest, e) =
    (rest ++ more, rw (e, append_assoc batch rest more) refl)

begin_flush-front :
    (enabled : Bool) (interval max_lines now : ℕ) (b : LogUploadBuffer)
    → ((begin_flush enabled interval max_lines now b).0.pending ≡ b.pending)
      × AtFront (begin_flush enabled interval max_lines now b).1 b.pending
unfolding begin_flush AtFront
begin_flush-front enabled interval max_lines now b =
    elim (Bool-cases (not enabled || (max_lines == 0))) [
      | inl off ↦ rw (off, begin_flush) (refl, tt)
      | inr on ↦ elim (Bool-cases ((length b.pending == 0) || waits now interval b.last_try)) [
        | inl early ↦ rw (on, early, begin_flush) (refl, tt)
        | inr due ↦
            let n = if ltb (length b.pending) max_lines then length b.pending else max_lines in
            rw (on, due, begin_flush) (refl, (drop n b.pending, sym (take-append-drop n b.pending)))
      ]
    ]

drop-front : (batch rest : List LogUploadEntry) → drop (length batch) (batch ++ rest) ≡ rest
drop-front [] rest = refl
drop-front (e ∷ batch) rest = drop-front batch rest

trim_lem :
    (pending : List LogUploadEntry)
    → length pending ≤ pending_limit
    → trim_pending pending ≡ pending
unfolding trim_pending
trim_lem pending fits = ground arith

adds-IsExact :
    (container : Bytes) (lines : List LogLine) (s : UploadState)
    → length (s.buffer.pending ++ entries_of container lines) ≤ pending_limit
    → IsExact s
    → IsExact (record s {
      buffer = add_lines container lines s.buffer;
      added = s.added ++ entries_of container lines;
    })
unfolding add_lines
adds-IsExact container lines s fits h =
    let more = entries_of container lines in
    let kept = trim_lem (s.buffer.pending ++ more) fits in
    record {
      exact =
          rw (kept, ← append_assoc s.uploaded s.buffer.pending more)
            (ap (λ entries. entries ++ more) h.exact);
      front = rw kept (AtFront-append s.batch s.buffer.pending more h.front);
    }

end_flush-pending :
    (batch rest : List LogUploadEntry) (b : LogUploadBuffer)
    → b.pending ≡ batch ++ rest
    → (end_flush true batch b).pending ≡ rest
unfolding end_flush
end_flush-pending batch rest b e =
    let fits : leb (length batch) (length (batch ++ rest)) ≡ true =
      ground (arith, length-append batch rest) in
    rw (e, fits) (drop-front batch rest)

sends-IsExact :
    (batch : List LogUploadEntry) (s : UploadState)
    → s.batch ≡ some batch
    → IsExact s
    → IsExact (record s {
      buffer = end_flush true batch s.buffer;
      batch = none;
      uploaded = s.uploaded ++ batch;
    })
unfolding AtFront
sends-IsExact batch s out h =
    let (rest, e) = rw out at h.front in
    record {
      exact =
          rw (end_flush-pending batch rest s.buffer e, append_assoc s.uploaded batch rest)
            (ap (λ entries. s.uploaded ++ entries) (sym e) ∙ h.exact);
      front = tt;
    }

step_event-IsExact : (e : Event) (s : UploadState) → Fits e s → IsExact s → IsExact (step_event e s)
unfolding step_event Fits
step_event-IsExact (adds container lines) s fits h = adds-IsExact container lines s fits h
step_event-IsExact (begins enabled interval max_lines now) s fits h = elim (Option-cases s.batch) [
  | inr (batch, out) ↦ rw out (record { exact = h.exact; front = rw out at h.front })
  | inl idle ↦
      let (same, front) = begin_flush-front enabled interval max_lines now s.buffer in
      rw idle (record { exact = rw same h.exact; front = rw same front })
]
step_event-IsExact (answers sent) s fits h = elim (Option-cases s.batch) [
  | inl idle ↦ rw idle (record { exact = h.exact; front = rw idle at h.front })
  | inr (batch, out) ↦ rw out (answered sent batch out)
]
  where
    answered :
        (sent : Bool) (batch : List LogUploadEntry)
        → s.batch ≡ some batch
        → IsExact (record s {
          buffer = end_flush sent batch s.buffer;
          batch = none;
          uploaded = if sent then s.uploaded ++ batch else s.uploaded;
        })
    answered true batch out = sends-IsExact batch s out h
    answered false batch out = unfold AtFront end_flush in record { exact = h.exact; front = tt }

-- Whatever the order of added lines, begun uploads and their answers, as long as the limit of the
-- buffer is not passed, the entries that were uploaded followed by those that are pending are
-- exactly all that were added, in order: none is lost and none is uploaded twice.
pub run_events-IsExact :
    (es : List Event) (s : UploadState) → AllFit es s → IsExact s → IsExact (run_events es s)
unfolding run_events AllFit
run_events-IsExact [] s fit h = h
run_events-IsExact (e ∷ es) s (fits, fit) h =
    run_events-IsExact es (step_event e s) fit (step_event-IsExact e s fits h)
