-- ===== src/Daemon.antt =====
-- agent/internal/daemon/daemon.go: how the agent lets a browser in. `Sessions` has the daemon's maps and
-- the handlers of knock, join and password_submit; the other modules prove.
pub mod Sessions
pub mod Nonces
pub mod Admission
pub mod Waiting
mod Tests
