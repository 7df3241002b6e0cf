-- ===== src/Transfer/Limit.antt =====
-- One download at a time, and at most one more than the share allows.
use share_bridge.Prelude.{ℕ, ◌+◌, ◌≤◌, ◌≡◌, true, false, List, [], ◌∷◌, Option, none, some, length}
use share_bridge.Transfer.State.{Manager}
use share_bridge.Transfer.Jobs.{Job, operation_of}
use share_bridge.Transfer.Sharing.{System, Request}

-- At most one stream runs, it has the slot, and without one the slot is free.
abbrev IsOwned : Manager → List Job → Type 0
IsOwned m [] = m.bulk_transfer ≡ false
IsOwned m (s ∷ []) = (m.bulk_transfer ≡ true) × (m.bulk_operation ≡ operation_of s)
IsOwned m (s ∷ t ∷ ss) = true ≡ false

-- A request that waits for its turn is one more.
abbrev waits : Option Request → ℕ
waits none = 0
waits (some q) = 1

record Inv (max : ℕ) (sys : System) : Type 0 where
  owned : IsOwned sys.manager sys.jobs
  limit : sys.manager.max_downloads ≡ max
  within : sys.manager.downloads + length sys.jobs + waits sys.pending ≤ max + 1
