-- ===== src/Daemon/Logs.antt =====
-- internal/daemon/logs.go: the alert rules with their cooldown, and the buffer of lines that wait for
-- upload. A moment of time is a number of nanoseconds.
pub mod Alerts
pub mod Upload
use maid_cafe.Base.{
  ltb, leb, ◌==◌, if◌then◌else◌, ltb→lt, leb→le, ==_iff, Bool-cases, &&_split, length, get_elem?,
  take, drop, All, filter, length-append, length-drop, drop-append, drop-drop, take-append-drop,
  All-append, Result, ok, err, ◌>>=◌, ◌>>◌, guard, Option-cases, Result-cases, ℕ, zero, suc, ◌+◌,
  ◌-◌, ◌*◌, ◌/◌, ◌%◌, ◌^◌, ◌≤◌, ◌<◌, ◌≡◌, refl, sym, ap, ◌∙◌, ◌≢◌, ◌↔◌, ◌⊎◌, inl, inr, Bool, true,
  false, not, ◌&&◌, ◌||◌, Option, none, some, List, [], ◌∷◌, ◌++◌, map, append-nil, append_assoc,
  arith,
}
use maid_cafe.Base.Text.{Bytes, str_eq}

-- `containerLogLine`
pub record LogLine : Type 0 where
  pub ts : ℕ
  pub line : Bytes

-- `logAlertRule`, where the pattern is what the compiled expression accepts
pub record AlertRule : Type 0 where
  pub name : Bytes
  pub pattern : Bytes → Bool
  pub container : Bytes
  pub title : Bytes
  pub cooldown : ℕ

-- an alert of the configuration; `enabled` may be left out
pub record AlertConfig : Type 0 where
  pub name : Bytes
  pub enabled : Option Bool
  pub pattern : Bytes
  pub container : Bytes
  pub title : Bytes
  pub cooldown_seconds : ℕ

-- `logAlertMatch`
pub record AlertMatch : Type 0 where
  pub rule : Bytes
  pub title : Bytes
  pub container : Bytes
  pub line : LogLine

-- five minutes
abbrev pub default_cooldown : ℕ
default_cooldown = 300 * 10 ^ 9

-- `SetAlerts`: the rules, given what the compiler of expressions makes of a pattern. A cooldown in
-- the configuration is at least 0.
unfoldable pub set_alerts : (Bytes → Option (Bytes → Bool)) → List AlertConfig → List AlertRule
set_alerts compile [] = []
set_alerts compile (alert ∷ alerts) =
    let rest = set_alerts compile alerts in
    let cooldown =
      if alert.cooldown_seconds == 0 then default_cooldown else alert.cooldown_seconds * 10 ^ 9 in
    elim alert.enabled [
      | some false ↦ rest
      | _ ↦ elim (compile alert.pattern) [
        | none ↦ rest
        | some pattern ↦
            record {
              name = alert.name;
              pattern = pattern;
              container = alert.container;
              title = alert.title;
              cooldown = cooldown;
            }
            ∷ rest
      ]
    ]

-- when each key last raised an alert; the newest entry of a key counts
abbrev pub Last : Type 0
Last = List (Bytes × ℕ)

unfoldable pub last_time : Bytes → Last → Option ℕ
last_time key [] = none
last_time key ((k, time) ∷ last) =
    let rest = last_time key last in if str_eq k key then some time else rest

-- `rule.name + "\x00" + container`
unfoldable pub alert_key : Bytes → Bytes → Bytes
alert_key name container = name ++ (0 ∷ container)

-- whether the cooldown of a key is not over
unfoldable pub cooling : Bytes → ℕ → ℕ → Last → Bool
unfolding last_time
cooling key cooldown now last = elim (last_time key last) [
  | none ↦ false
  | some previous ↦ ltb (now - previous) cooldown
]

-- whether a rule is for a line of a container
unfoldable pub applies : AlertRule → Bytes → LogLine → Bool
applies rule container line =
    (str_eq rule.container [] || str_eq rule.container container) && rule.pattern line.line

-- `Match`: the times and the alerts that are raised. The clock is monotonic.
unfoldable pub match_line : List AlertRule → Bytes → LogLine → ℕ → Last → Last × List AlertMatch
unfolding cooling applies alert_key
match_line [] container line now last = (last, [])
match_line (rule ∷ rules) container line now last =
    let key = alert_key rule.name container in
    if not (applies rule container line) || cooling key rule.cooldown now last
    then match_line rules container line now last
    else let (last', matches) = match_line rules container line now ((key, now) ∷ last) in
      (
        last',
        record { rule = rule.name; title = rule.title; container = container; line = line }
            ∷ matches,
      )

-- `LogUploadEntry`
pub record LogUploadEntry : Type 0 where
  pub container_id : Bytes
  pub timestamp : ℕ
  pub line : Bytes

-- `logUploadBuffer`
pub record LogUploadBuffer : Type 0 where
  pub pending : List LogUploadEntry
  pub last_try : Option ℕ

-- the limit in `Add`
abbrev pub pending_limit : ℕ
pending_limit = 5000

abbrev pub new_log_upload_buffer : LogUploadBuffer
new_log_upload_buffer = record { pending = []; last_try = none }

unfoldable pub entries_of : Bytes → List LogLine → List LogUploadEntry
entries_of container [] = []
entries_of container (l ∷ lines) =
    record { container_id = container; timestamp = l.ts; line = l.line }
    ∷ entries_of container lines

-- `b.pending[len(b.pending)-5000:]` where there are more
unfoldable pub trim_pending : List LogUploadEntry → List LogUploadEntry
trim_pending pending =
    if ltb pending_limit (length pending)
    then drop (length pending - pending_limit) pending
    else pending

-- `Add`
unfoldable pub add_lines : Bytes → List LogLine → LogUploadBuffer → LogUploadBuffer
unfolding entries_of trim_pending
add_lines container lines b = record b {
  pending = trim_pending (b.pending ++ entries_of container lines);
}

-- whether `Flush` waits for the interval to pass
unfoldable pub waits : ℕ → ℕ → Option ℕ → Bool
waits now interval none = false
waits now interval (some last) = ltb (now - last) interval

-- `Flush` up to the upload, which it makes without the lock: the batch, unless there is none to
-- send. `enabled` is whether uploads are enabled and there is a publisher.
unfoldable pub begin_flush :
    Bool → ℕ → ℕ → ℕ → LogUploadBuffer → LogUploadBuffer × Option (List LogUploadEntry)
unfolding waits
begin_flush enabled interval max_lines now b =
    if not enabled || (max_lines == 0)
    then (b, none)
    else if (length b.pending == 0) || waits now interval b.last_try
    then (b, none)
    else (
      record b { last_try = some now },
      some (
          take (if ltb (length b.pending) max_lines then length b.pending else max_lines)
            b.pending),
    )

-- `Flush` from the answer to the upload
unfoldable pub end_flush : Bool → List LogUploadEntry → LogUploadBuffer → LogUploadBuffer
end_flush sent batch b =
    if not sent
    then b
    else if leb (length batch) (length b.pending)
    then record b { pending = drop (length batch) b.pending }
    else b
