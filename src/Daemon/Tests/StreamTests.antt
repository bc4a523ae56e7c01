-- ===== src/Daemon/Tests/StreamTests.antt =====
-- The laws of the event stream at concrete inputs, and runs of its functions.
use maid_cafe.Base.{if◌then◌else◌, ok, ◌≡◌, refl, false, ◌&&◌, some, [], ◌∷◌, arith}
use maid_cafe.Base.Text.{codes, str_eq, mem, trim_space, split, cons_to_first}
use maid_cafe.Daemon.Stream.{
  Subscriber, new_stream_hub, broadcast, subscribe, unique_types, mem_id, frame_of, push_to,
  parse_events_param, parse_events,
}
use maid_cafe.Daemon.Stream.Queue.{
  Channel, IsLatest, pushes, receives, run_channel, run_channel-IsLatest,
}
use maid_cafe.Daemon.Stream.Fanout.{subscribes, run_hub, step_hub, run_hub-fans_out}

abbrev waiting : Channel
waiting = record { queue = codes "b" ∷ []; pushed = codes "a" ∷ codes "b" ∷ [] }

waiting-IsLatest : IsLatest waiting
waiting-IsLatest = record { before = 1; within = omega arith; tail = refl; bounded = omega arith }

run_channel-IsLatest_example : IsLatest (run_channel (pushes (codes "c") ∷ receives ∷ []) waiting)
run_channel-IsLatest_example =
    run_channel-IsLatest (pushes (codes "c") ∷ receives ∷ []) waiting waiting-IsLatest

abbrev watcher : Subscriber
watcher = record { types = codes "logs" ∷ []; processes_limit = 0; queue = []; closed = false }

two_watch :
    (run_hub (subscribes (codes " logs " ∷ []) 0 ∷ subscribes [] 5 ∷ []) new_stream_hub).subscriber
      0
    ≡ some watcher
unfolding run_hub step_hub subscribe unique_types str_eq mem trim_space
two_watch = refl

run_hub-fans_out_example :
    (broadcast (codes "logs") (codes "{}") (
        run_hub
          (subscribes (codes " logs " ∷ []) 0 ∷ subscribes [] 5 ∷ [])
          new_stream_hub)).subscriber
      0
    ≡ some (
        if mem_id 0
            (run_hub (subscribes (codes " logs " ∷ []) 0 ∷ subscribes [] 5 ∷ []) new_stream_hub).all
          && mem (codes "logs") watcher.types
        then push_to (frame_of (codes "logs") (codes "{}")) watcher
        else watcher)
run_hub-fans_out_example =
    run_hub-fans_out (subscribes (codes " logs " ∷ []) 0 ∷ subscribes [] 5 ∷ []) (codes "logs")
      (codes "{}") 0 watcher two_watch

parse-events :
    parse_events_param (codes " logs,metric, logs ,") ≡ ok (codes "logs" ∷ codes "metric" ∷ [])
unfolding parse_events_param parse_events split cons_to_first str_eq mem trim_space
parse-events = refl
