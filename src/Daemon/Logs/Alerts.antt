-- ===== src/Daemon/Logs/Alerts.antt =====
-- The cooldown of the alert rules of internal/daemon/logs.go.
use maid_cafe.Base.{
  ltb, if◌then◌else◌, Bool-cases, All, ℕ, ◌-◌, ◌≤◌, ◌≡◌, refl, inl, inr, true, false, not, ◌||◌,
  Option, none, some, List, [], ◌∷◌, ◌++◌, arith,
}
use maid_cafe.Base.Text.{Bytes, str_eq, eq_of_str_eq}
use maid_cafe.Daemon.Logs.{
  LogLine, AlertRule, AlertMatch, Last, last_time, alert_key, cooling, applies, match_line,
}

-- a moment for each alert of a key
unfoldable pub key_times : Bytes → ℕ → List AlertMatch → List ℕ
key_times key now [] = []
key_times key now (m ∷ ms) =
    let rest = key_times key now ms in
    if str_eq (alert_key m.rule m.container) key then now ∷ rest else rest

-- the moments at which the rules raise an alert of a key, for lines of any containers
unfoldable pub raise_times : Bytes → List AlertRule → List (Bytes × LogLine × ℕ) → Last → List ℕ
unfolding key_times match_line
raise_times key rules [] last = []
raise_times key rules ((container, line, now) ∷ lines) last =
    let (last', matches) = match_line rules container line now last in
    key_times key now matches ++ raise_times key rules lines last'

-- each moment is a cooldown or more behind the one before it
pub Spaced : ℕ → Option ℕ → List ℕ → Type 0
Spaced cooldown previous [] = Unit
Spaced cooldown none (now ∷ later) = Spaced cooldown (some now) later
Spaced cooldown (some previous) (now ∷ later) =
    (cooldown ≤ now - previous) × Spaced cooldown (some now) later

-- no rule that shares a key waits for less
abbrev pub WaitsFor : ℕ → Bytes → AlertRule → Type 0
WaitsFor cooldown key rule =
    (container : Bytes) → alert_key rule.name container ≡ key → cooldown ≤ rule.cooldown

last_time-same :
    (key k : Bytes) (now : ℕ) (last : Last)
    → str_eq k key ≡ true
    → last_time key ((k, now) ∷ last) ≡ some now
unfolding last_time
last_time-same key k now last h = rw h refl

last_time-other :
    (key k : Bytes) (now : ℕ) (last : Last)
    → str_eq k key ≡ false
    → last_time key ((k, now) ∷ last) ≡ last_time key last
unfolding last_time
last_time-other key k now last h = rw h refl

Spaced-next :
    (cooldown wait now : ℕ) (previous : Option ℕ) (later : List ℕ)
    → cooldown ≤ wait
    → (elim previous [ none ↦ false | some p ↦ ltb (now - p) wait ]) ≡ false
    → Spaced cooldown (some now) later
    → Spaced cooldown previous (now ∷ later)
unfolding Spaced
Spaced-next cooldown wait now none later w h s = s
Spaced-next cooldown wait now (some previous) later w h s = (ground arith, s)

-- one call of `Match` in front of later alerts
match_line-Spaced :
    (cooldown : ℕ) (key : Bytes) (rules : List AlertRule) (container : Bytes) (line : LogLine)
    (now : ℕ) (last : Last) (later : List ℕ)
    → All (WaitsFor cooldown key) rules
    → Spaced cooldown (last_time key (match_line rules container line now last).0) later
    → Spaced cooldown
        (last_time key last)
        (key_times key now (match_line rules container line now last).1 ++ later)
unfolding match_line key_times
match_line-Spaced cooldown key [] container line now last later waits h = h
match_line-Spaced cooldown key (rule ∷ rules) container line now last later (wait, waits) h =
    let k = alert_key rule.name container in
    let again = match_line-Spaced cooldown key rules container line now in
    elim (Bool-cases (not (applies rule container line) || cooling k rule.cooldown now last)) [
      | inl quiet ↦
          let h' = rw (quiet, match_line) at h in rw (quiet, match_line) (again last later waits h')
      | inr due ↦
          let h' = rw (due, match_line) at h in
          let spaced = again ((k, now) ∷ last) later waits h' in
          elim (Bool-cases (str_eq k key)) [
            | inl same ↦
                let e = eq_of_str_eq k key same in
                let over : cooling k rule.cooldown now last ≡ false = ground arith in
                let over' : cooling key rule.cooldown now last ≡ false = rw e at over in
                rw (due, match_line, same)
                  (Spaced-next cooldown rule.cooldown now (last_time key last) _ (wait container e)
                    (unfold cooling in over') (rw (last_time-same key k now last same) at spaced))
            | inr other ↦
                rw (due, match_line, other) (rw (last_time-other key k now last other) at spaced)
          ]
    ]

-- Whatever lines of whatever containers the rules see, the alerts of a rule's name for a container
-- are the rule's cooldown or more apart, the first of them from the last one before. No rule that
-- shares this key has a shorter cooldown.
pub raise_times-Spaced :
    (rule : AlertRule) (container : Bytes) (rules : List AlertRule)
    (lines : List (Bytes × LogLine × ℕ)) (last : Last)
    → All (WaitsFor rule.cooldown (alert_key rule.name container)) rules
    → Spaced rule.cooldown
        (last_time (alert_key rule.name container) last)
        (raise_times (alert_key rule.name container) rules lines last)
unfolding raise_times
raise_times-Spaced rule container rules [] last waits = unfold Spaced in tt
raise_times-Spaced rule container rules ((c, line, now) ∷ lines) last waits =
    let key = alert_key rule.name container in
    match_line-Spaced rule.cooldown key rules c line now last _ waits
      (raise_times-Spaced rule container rules lines (match_line rules c line now last).0 waits)
