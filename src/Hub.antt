-- ===== src/Hub.antt =====
-- signaling-server/internal/hub: which agent and which browser a signalling message reaches.
-- `State` holds the maps, `Ownership` the checks of ownership.go, `Agents` and `Browsers` the
-- operations of hub.go; the other modules prove.
pub mod State
pub mod Ownership
pub mod Agents
pub mod Browsers
pub mod Fencing
pub mod Sessions
pub mod Pairing
pub mod Disconnects
pub mod Revocation
mod Tests
