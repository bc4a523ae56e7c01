-- ===== src/Daemon/Tests/LogTests.antt =====
-- Alerts and uploads of internal/daemon/logs.go.
use maid_cafe.Base.{ℕ, ◌≡◌, refl, true, false, none, List, [], ◌∷◌, arith}
use maid_cafe.Base.Text.{codes, str_eq, Bytes}
use maid_cafe.Daemon.Logs.{
  LogLine, AlertRule, new_log_upload_buffer, last_time, alert_key, entries_of, match_line,
  begin_flush, add_lines, trim_pending, waits,
}
use maid_cafe.Daemon.Logs.Upload.{
  Fits, step_event, UploadState, Event, adds, begins, answers, run_events, AllFit, IsExact,
  run_events-IsExact, AtFront,
}
use maid_cafe.Daemon.Logs.Alerts.{key_times, raise_times, Spaced, raise_times-Spaced}

abbrev oom : AlertRule
oom = record {
  name = codes "oom";
  pattern = λ line. str_eq line (codes "killed");
  container = [];
  title = codes "Out of memory";
  cooldown = 10;
}

abbrev killed : LogLine
killed = record { ts = 0; line = codes "killed" }

abbrev disk : AlertRule
disk = record {
  name = codes "disk";
  pattern = λ line. str_eq line (codes "killed");
  container = [];
  title = codes "Disk";
  cooldown = 50;
}

abbrev four_lines : List (Bytes × LogLine × ℕ)
four_lines =
    (codes "db", killed, 100)
    ∷ (codes "db", killed, 105)
    ∷ (codes "web", killed, 107)
    ∷ (codes "db", killed, 110)
    ∷ []

two_alerts :
    raise_times (alert_key oom.name (codes "db")) (oom ∷ disk ∷ []) four_lines [] ≡ 100 ∷ 110 ∷ []
unfolding raise_times match_line str_eq key_times alert_key
two_alerts = refl

raise_times-Spaced_example :
    Spaced oom.cooldown
      (last_time (alert_key oom.name (codes "db")) [])
      (raise_times (alert_key oom.name (codes "db")) (oom ∷ disk ∷ []) four_lines [])
unfolding alert_key
raise_times-Spaced_example =
    raise_times-Spaced oom (codes "db") (oom ∷ disk ∷ []) four_lines []
      ((λ c e. omega arith), ((λ c e. cc), tt))

abbrev at_start : UploadState
at_start = record { buffer = new_log_upload_buffer; batch = none; uploaded = []; added = [] }

abbrev events : List Event
events =
    adds (codes "db") (killed ∷ killed ∷ [])
    ∷ begins true 5 1 100
    ∷ adds (codes "web") (killed ∷ [])
    ∷ answers true
    ∷ begins true 5 1 110
    ∷ answers false
    ∷ []

at_start-IsExact : IsExact at_start
unfolding AtFront
at_start-IsExact = record { exact = refl; front = tt }

events-AllFit : AllFit events at_start
unfolding AllFit Fits step_event begin_flush add_lines entries_of trim_pending waits
events-AllFit = (omega arith, (tt, (omega arith, (tt, (tt, (tt, tt))))))

run_events-IsExact_example : IsExact (run_events events at_start)
run_events-IsExact_example = run_events-IsExact events at_start events-AllFit at_start-IsExact
