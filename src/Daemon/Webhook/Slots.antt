-- ===== src/Daemon/Webhook/Slots.antt =====
-- The concurrency slots of internal/daemon/webhook.go: a channel of tokens.
pub mod InStep
use maid_cafe.Base.{ltb, if◌then◌else◌, ℕ, suc, zero, Bool, true, false, Option, none, some}

-- `slots`: how many tokens the channel may hold, and how many it holds
pub record Slots : Type 0 where
  pub capacity : ℕ
  pub tokens : ℕ

-- `SetMaxConcurrentRuns`: a new channel
unfoldable pub set_max_concurrent_runs : ℕ → Slots
set_max_concurrent_runs n = record { capacity = n; tokens = 0 }

-- `acquireSlot`
unfoldable pub acquire_slot : Slots → Slots × Bool
acquire_slot s =
    if ltb s.tokens s.capacity then (record s { tokens = suc s.tokens }, true) else (s, false)

-- `releaseSlot`, which waits for ever, with the lock held, if there is no token
unfoldable pub release_slot : Slots → Option Slots
release_slot s = elim s.tokens [ zero ↦ none | suc n ↦ some (record s { tokens = n }) ]
