-- ===== src/Transfer.antt =====
-- agent/internal/transfer/manager.go: the agent's end of a share, which answers the browser's requests
-- over the lanes. `Frames` has the binary frames, `State` the manager and the operations that tie
-- control messages and bytes to one transfer, `Downloads` the requests for a file or an asset and
-- `Streams` their loop, `Previews` the media requests and `Playback` theirs, `Thumbnails` the gallery
-- and `Albums` its download, `Jobs` the turns of what holds the bulk slot; `Sharing` and `Sections` put
-- these in any order, and the other modules prove.
pub mod Frames
pub mod State
pub mod Downloads
pub mod Streams
pub mod Previews
pub mod Playback
pub mod Thumbnails
pub mod Batches
pub mod Albums
pub mod Archives
pub mod Envelope
mod Tests
pub mod Delivery
pub mod Answers
pub mod Turns
pub mod Jobs
pub mod JobTurns
pub mod Sharing
pub mod Limit
pub mod Sections
pub mod Carried
pub mod Fencing
