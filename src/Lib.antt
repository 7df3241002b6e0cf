-- ===== src/Lib.antt =====
-- ShareBridge lets a browser fetch files from an agent that runs beside them. A signalling server
-- introduces the two, and where no direct connection comes about it relays their traffic. This library
-- models the core of both Go programs. On the agent's side these are the lane protocol, the scheduler that
-- shares one transport between the lanes, the relay's frame codec, the Noise handshake that protects
-- relayed traffic, the relay channel that puts these together, the transfer manager that answers the
-- browser over the lanes, and the daemon's decision whom to let in. On the server's side they are the hub,
-- which decides whom a message reaches, and the registry of relay sessions.
--
-- `Prelude` has the shared names: tests on numbers and strings, lists, association lists for Go's maps,
-- results for (value, error) pairs, big-endian integers. A map entry that is missing reads as Go's zero
-- value where the code reads it so (`index`), and as `none` where the code asks for the second value.
--
-- `RelayFrame` is agent/internal/relaychannel/frame.go: WriteFrame and DecodeOneFrame (`write_frame`,
-- `decode_one_frame`) over lists of bytes.
--
-- `Lane` is agent/internal/multilane/lane.go: `valid`, `encode_envelope`, `decode_envelope` and
-- `lane_for_class`; `Lane.Handshake` is InstallHandshakeResponder, whose state is the handler that the
-- control endpoint calls, whether the responder has fired, and what was sent and closed. What
-- json.Unmarshal makes of a message and whether SendText succeeds are given with each message.
--
-- `Scheduler` is agent/internal/multilane/scheduler.go. `State` has the struct with the functions on one
-- class, `Admission` the bounded queues and their waiters, `Select` nextLocked and the two round-robins
-- under it, `Steps` the public operations. Send and the pump release the lock in between, so each is
-- several steps: `send` runs up to Send's first wait, `cancel_waiting` and `cancel_queued` are what
-- follows ctx.Done(), `pump_take` and `pump_complete` surround the write. `Event` has one constructor for
-- each step, and `run` takes any sequence of them. The channels done and ready are the list `resolved`.
-- The loops of peekMediaLocked and nextDataLocked run on fuel, 66 and 24: a request of the largest size
-- that a class admits is covered after 32 inner quanta of 64 KiB, two turns each, and after fewer outer
-- ones. The notify channel, which only
-- wakes the pump, is left out: the pump may take at any time.
--
-- `Noise` is agent/internal/noise. SHA-256, HMAC, P-256 and AES-GCM are the record `Crypto`, a parameter,
-- and `Laws` has what their libraries document. `Cipher` is cipher.go, `Crypto` also has transcript.go
-- and keys.go, `Handshake` is handshake.go: a message operation takes the state and returns it also where
-- it fails half-way. A generated key pair is an argument.
--
-- `RelayChannel` is agent/internal/relaychannel/channel.go. `State` has the channel, its callbacks and
-- its endpoints, `Wire` writeScheduled and readLoop, `Start` runHandshake and Start. A handler is a
-- number, and the calls of handlers and callbacks are lists in the state. What the websocket's reads give
-- is the list of messages that a definition takes, and `accepts` is whether a write succeeds.
--
-- `Transfer` is agent/internal/transfer/manager.go. `Frames` has its binary frames, `State` the manager
-- with the sections under its locks, `Downloads` and `Streams` handleFileRequest, handleAssetRequest and
-- the loop of their streams, `Previews` and `Playback` the media requests and theirs. A context is the
-- number of the operation that made it. What the endpoints were given is a list in the state. A stream
-- is advanced one read at a time, and `Sharing` and `Sections` let these steps come in any order:
-- `Sharing` takes a request in two steps, its test of the limit and the rest, and `Jobs` the turns of a
-- download and of an album, of which one archive is a turn; `Sections` takes the single sections under a
-- lock. `Thumbnails` has the fields under galleryMu, which no other part reads, with the sections that use
-- them; `Albums` is handleAlbumDownloadRequest and its goroutine, with what the backend, its pipe and its
-- waits give as the list of archives. The loop of nextOperationID runs on fuel 2, since only one number of
-- the uint64 is passed over.
--
-- `Daemon` is agent/internal/daemon/daemon.go as far as it lets a browser in: handleKnock, handleJoin,
-- handlePasswordSubmit and RevokeSession, each one step on the daemon's maps. HMAC-SHA-256 and the
-- decoding of hex are the record `Hmac`, a parameter. Time is in seconds; a random nonce is an argument.
--
-- `Hub` is signaling-server/internal/hub, hub.go and ownership.go. A connection is a number with 0 for
-- nil; the operations that write return what they write, to a network that is a parameter (`Network`):
-- it may refuse a write. The locks of single connections are kept as their presence in `conn_writes`.
--
-- `Registry` is signaling-server/internal/relay/registry.go. Time is a number that each operation is
-- given. A wait is split where it blocks: `wait_deadline` before, `wait_for_agent` and `wait_for_browser`
-- after. `run` takes the operations in any order.
--
-- The parts meet in the daemon and in the handlers: the relay handler binds sockets in the registry and
-- the signalling handlers call the hub. That glue is not modelled, and neither are
-- the rest of the daemon, the file lists and thumbnail workers of the transfer manager, the clients of external services, the
-- web interfaces, the database code over PocketBase, the benchmark, and the front ends in other languages.
pub mod Prelude
pub mod RelayFrame
pub mod Lane
pub mod Scheduler
pub mod Noise
pub mod RelayChannel
pub mod Transfer
pub mod Daemon
pub mod Hub
pub mod Registry
