-- ===== src/Daemon/Stream.antt =====
-- internal/daemon/stream.go: the hub that fans frames out to the subscribers of an event, and the
-- parameters of a stream. Subscribers are numbered in the order in which they come; a map from events
-- to sets of subscribers is a function to lists, whose order no operation reads.
pub mod Queue
pub mod Fanout
use maid_cafe.Base.{
  ltb, leb, ◌==◌, if◌then◌else◌, length, take, drop, ℕ, suc, zero, ◌+◌, Bool, true, false, not,
  ◌&&◌, ◌||◌, Option, none, some, List, [], ◌∷◌, ◌++◌, map, Result, ok, err, ◌>>=◌, ◌>>◌, guard,
}
use mathlib.Core.List.{reverse}
use maid_cafe.Base.Int.{ℤ, pos, negsuc}
use maid_cafe.Base.Text.{Bytes, codes, str_eq, mem, trim_space, split}

-- `subscriberBufferSize`
abbrev pub subscriber_buffer_size : ℕ
subscriber_buffer_size = 8

-- `streamEventTypes`
abbrev pub stream_event_types : List Bytes
stream_event_types =
    codes "metric"
    ∷ codes "containers"
    ∷ codes "images"
    ∷ codes "processes"
    ∷ codes "systemd"
    ∷ codes "runtimes"
    ∷ codes "databaseMetrics"
    ∷ codes "logs"
    ∷ []

-- `Subscriber`, with the frames in its channel, the oldest first
pub record Subscriber : Type 0 where
  pub types : List Bytes
  pub processes_limit : ℕ
  pub queue : List Bytes
  pub closed : Bool

-- `StreamHub`: the subscribers there have been, those there are, and those of each event
pub record StreamHub : Type 0 where
  pub next : ℕ
  pub subscriber : ℕ → Option Subscriber
  pub all : List ℕ
  pub subs : Bytes → List ℕ

-- `NewStreamHub`
abbrev pub new_stream_hub : StreamHub
new_stream_hub = record { next = 0; subscriber = λ id. none; all = []; subs = λ event. [] }

-- the loop of `Subscribe` over the types, given those that it has seen
unfoldable pub unique_types : List Bytes → List Bytes → List Bytes
unique_types seen [] = []
unique_types seen (raw ∷ rest) =
    let t = trim_space raw in
    let skips = str_eq t [] || mem t seen in
    let others = unique_types (if skips then seen else t ∷ seen) rest in
    if skips then others else t ∷ others

-- the buckets with a subscriber of some types entered
unfoldable pub enter : ℕ → List Bytes → (Bytes → List ℕ) → Bytes → List ℕ
enter id types subs event = if mem event types then id ∷ subs event else subs event

-- `Subscribe`, which returns the number of the new subscriber
unfoldable pub subscribe : List Bytes → ℕ → StreamHub → StreamHub × ℕ
unfolding unique_types enter
subscribe types processes_limit h =
    let unique = unique_types [] types in
    let s : Subscriber = record {
      types = unique;
      processes_limit = processes_limit;
      queue = [];
      closed = false;
    } in
    (
      record {
        next = suc h.next;
        subscriber = λ id. if id == h.next then some s else h.subscriber id;
        all = h.next ∷ h.all;
        subs = enter h.next unique h.subs;
      },
      h.next,
    )

unfoldable pub mem_id : ℕ → List ℕ → Bool
mem_id id [] = false
mem_id id (i ∷ ids) = (i == id) || mem_id id ids

unfoldable pub remove_id : ℕ → List ℕ → List ℕ
remove_id id [] = []
remove_id id (i ∷ ids) = let rest = remove_id id ids in if i == id then rest else i ∷ rest

-- the buckets without a subscriber of some types
unfoldable pub leave : ℕ → List Bytes → (Bytes → List ℕ) → Bytes → List ℕ
unfolding remove_id
leave id types subs event = if mem event types then remove_id id (subs event) else subs event

-- a change of one subscriber
unfoldable pub at_id :
    ℕ → (Subscriber → Subscriber) → (ℕ → Option Subscriber) → ℕ → Option Subscriber
at_id id f subscriber j =
    if j == id then (elim (subscriber j) [ none ↦ none | some s ↦ some (f s) ]) else subscriber j

abbrev types_of : Option Subscriber → List Bytes
types_of none = []
types_of (some s) = s.types

-- `Unsubscribe`
unfoldable pub unsubscribe : ℕ → StreamHub → StreamHub
unfolding mem_id remove_id leave at_id
unsubscribe id h = if not (mem_id id h.all) then h else record h {
  all = remove_id id h.all;
  subs = leave id (types_of (h.subscriber id)) h.subs;
  subscriber = at_id id (λ (s : Subscriber). record s { closed = true }) h.subscriber;
}

-- `pushLocked` on the channel: the oldest frame makes room
unfoldable pub push_locked : Bytes → List Bytes → List Bytes
push_locked frame queue =
    if ltb (length queue) subscriber_buffer_size
    then queue ++ (frame ∷ [])
    else drop 1 queue ++ (frame ∷ [])

abbrev pub push_to : Bytes → Subscriber → Subscriber
push_to frame s = record s { queue = push_locked frame s.queue }

-- a frame for each of the listed subscribers
unfoldable pub push_all : List ℕ → Bytes → (ℕ → Option Subscriber) → ℕ → Option Subscriber
unfolding at_id
push_all [] frame subscriber = subscriber
push_all (id ∷ ids) frame subscriber = push_all ids frame (at_id id (push_to frame) subscriber)

-- the frame of an event
unfoldable pub frame_of : Bytes → Bytes → Bytes
frame_of event content =
    codes "event: " ++ (event ++ (codes "\ndata: " ++ (content ++ codes "\n\n")))

-- `Broadcast`
unfoldable pub broadcast : Bytes → Bytes → StreamHub → StreamHub
unfolding push_all frame_of
broadcast event content h = record h {
  subscriber = push_all (h.subs event) (frame_of event content) h.subscriber;
}

-- `Subscribers`
unfoldable pub subscribers : Bytes → StreamHub → ℕ
subscribers event h = length (h.subs event)

-- `Len`
unfoldable pub len : StreamHub → ℕ
len h = length h.all

-- the loop of `parseEventsParam`, given the types that it has seen
unfoldable pub parse_events : List Bytes → List Bytes → Result Bytes (List Bytes)
parse_events seen [] = ok []
parse_events seen (part ∷ parts) =
    let t = trim_space part in
    let skips = str_eq t [] || mem t seen in
    let others = parse_events (if skips then seen else t ∷ seen) parts in
    if not (str_eq t []) && not (mem t stream_event_types)
    then err t
    else if skips
    then others
    else elim others [ err e ↦ err e | ok types ↦ ok (t ∷ types) ]

-- `parseEventsParam`: the types, none for all of them, or the unknown type
unfoldable pub parse_events_param : Bytes → Result Bytes (List Bytes)
unfolding parse_events
parse_events_param raw =
    if str_eq (trim_space raw) [] then ok [] else parse_events [] (split b',' (trim_space raw))

-- `maxProcessesLimit`
abbrev max_processes_limit : ℕ
max_processes_limit = 10000

-- why a limit is refused
pub data LimitError : Type 0 where
  not_integer out_of_range : LimitError

-- `parseProcessesLimit`, given what `strconv.Atoi` makes of a text
unfoldable pub parse_processes_limit : (Bytes → Option ℤ) → Bytes → ℤ → Result LimitError ℤ
parse_processes_limit atoi raw default =
    if str_eq (trim_space raw) [] then ok default else elim (atoi (trim_space raw)) [
      | none ↦ err not_integer
      | some (negsuc n) ↦ err out_of_range
      | some (pos n) ↦ if ltb max_processes_limit n then err out_of_range else ok (pos n)
    ]
