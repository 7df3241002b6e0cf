-- ===== src/RelayChannel.antt =====
-- agent/internal/relaychannel/channel.go: the agent's end of a relayed connection, which runs the
-- Noise handshake over the relay's frames and then carries the three lanes. `State` has the channel
-- and its callbacks, `Wire` what it writes and reads, `Start` the handshake and the life cycle; the
-- other modules prove.
pub mod State
pub mod Wire
pub mod Start
pub mod Exchange
pub mod Delivery
pub mod Callbacks
pub mod Starting
pub mod Closing
pub mod Opening
mod Tests
