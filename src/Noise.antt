-- ===== src/Noise.antt =====
-- agent/internal/noise: the Noise XX handshake between browser and agent, and the ciphers it ends
-- in. `Crypto` has what the package takes from Go's crypto libraries, transcript.go and keys.go,
-- `Cipher` has cipher.go, `Handshake` has handshake.go; the other modules prove.
pub mod Crypto
pub mod Cipher
pub mod Handshake
pub mod Steps
pub mod Outcomes
pub mod Agreement
pub mod Transport
pub mod Toy
mod Tests
