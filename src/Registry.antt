-- ===== src/Registry.antt =====
-- signaling-server/internal/relay/registry.go: the relay sessions, from their creation until browser
-- and agent have met. `Sessions` holds the state and the operations; the other modules prove.
pub mod Sessions
pub mod Continues
pub mod Replay
pub mod Meeting
pub mod Cleanup
mod Tests
