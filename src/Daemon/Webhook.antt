-- ===== src/Daemon/Webhook.antt =====
-- internal/daemon/webhook.go: the tables of webhooks and actions, the credentials of a request, and
-- the buffers that keep the front of what a command writes.
pub mod Slots
pub mod Script
pub mod Execute
use maid_cafe.Base.{
  ltb, leb, ◌==◌, if◌then◌else◌, length, take, drop, ℕ, suc, zero, ◌+◌, ◌-◌, Bool, true, false, not,
  ◌&&◌, ◌||◌, Option, none, some, List, [], ◌∷◌, ◌++◌,
}
use maid_cafe.Base.Int.{ℤ, pos, negsuc}
use maid_cafe.Base.Text.{Bytes, codes, str_eq, trim_space, to_lower}

-- `WebhookConfig`, for a webhook or an action
pub record Hook : Type 0 where
  pub name : Bytes
  pub secret : Bytes
  pub command : Bytes
  pub args : List Bytes
  pub enabled : Bool
  pub display_name : Bytes
  pub script : Bool
  pub cwd : Bytes
  pub user : Bytes
  pub env : List Bytes
  pub timeout : ℤ

-- The tables `hooks` and `actions` as the lists they are made from: an entry of a map replaces an
-- earlier one of its name, and `SetHooks` enters the actions after the webhooks.
pub record HookTables : Type 0 where
  pub webhooks : List Hook
  pub actions : List Hook

-- `SetHooks`
unfoldable pub set_hooks : List Hook → List Hook → HookTables
set_hooks webhooks actions = record { webhooks = webhooks; actions = actions }

-- the last entry of a name
unfoldable pub last_named : Bytes → List Hook → Option Hook
unfolding str_eq
last_named name [] = none
last_named name (h ∷ hs) = elim (last_named name hs) [
  | some found ↦ some found
  | none ↦ if str_eq h.name name then some h else none
]

-- `hook`
unfoldable pub find_hook : HookTables → Bytes → Option Hook
unfolding last_named
find_hook tables name = last_named name (tables.webhooks ++ tables.actions)

-- `action`
unfoldable pub find_action : HookTables → Bytes → Option Hook
unfolding last_named
find_action tables name = last_named name tables.actions

-- `bearerSecret`, from the header of the request
unfoldable pub bearer_secret : Bytes → Option Bytes
bearer_secret header =
    let value = trim_space header in
    if ltb (length value) 7 || not (str_eq (to_lower (take 7 value)) (codes "bearer "))
    then none
    else if str_eq (trim_space (drop 7 value)) []
    then none
    else some (trim_space (drop 7 value))

-- `authorizedRequest`
unfoldable pub authorized_request : Bytes → Bytes → Bool
unfolding bearer_secret
authorized_request header expected = elim (bearer_secret header) [
  | none ↦ false
  | some secret ↦ not (str_eq (trim_space expected) []) && str_eq secret expected
]

-- `signatureValid`, given the code of a body under a secret in hexadecimal digits
unfoldable pub signature_valid : (Bytes → Bytes → Bytes) → Bytes → Bytes → Bytes → Bool
signature_valid mac secret body provided =
    if str_eq secret [] || str_eq provided []
    then false
    else str_eq (mac secret body) (trim_space provided)

-- `limitedBuffer`
pub record LimitedBuffer : Type 0 where
  pub buf : Bytes
  pub limit : ℕ

-- `Write`: the buffer, and the count that it returns
unfoldable pub limited_write : Bytes → LimitedBuffer → LimitedBuffer × ℕ
limited_write p b =
    if ltb 0 b.limit && ltb (length b.buf) b.limit
    then (let q =
          if ltb (b.limit - length b.buf) (length p) then take (b.limit - length b.buf) p else p in
        (record b { buf = b.buf ++ q }, length q))
    else (b, length p)

-- the copying of what a command writes, as package os/exec does it: a write that takes less than it
-- was given ends it with an error
unfoldable pub collect : List Bytes → LimitedBuffer → LimitedBuffer × Bool
unfolding limited_write
collect [] b = (b, false)
collect (chunk ∷ chunks) b =
    let (b', n) = limited_write chunk b in
    if ltb n (length chunk) then (b', true) else collect chunks b'
