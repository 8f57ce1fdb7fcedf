-- ===== src/Lib.antt =====
-- remotelink lets a viewer see and control a host through a signalling server. This library models
-- the parts that carry its own logic, and proves what makes them correct.
--
-- The parts, and the files that model them (paths from the repository's root):
--
--   Registry    apps/server/src/session.rs: connections, the host directory, one session per host,
--               session states, the relay of media signals, viewer tokens. State holds the records;
--               Close, Presence, Lifecycle and Relay hold the operations, one function for each
--               method; Valid, Cases, Steps, SessionSteps, History, Media, Replay, Outcomes,
--               Answers and Reconnect hold proofs.
--   Protocol    packages/protocol/src/message.rs: the signalling messages that the registry carries.
--               Protocol.Scancode models packages/protocol/src/scancode.rs, the key table.
--   Auth        packages/auth/src: DeviceId (device_id.rs), Otp (otp.rs), Transcript (challenge.rs),
--               Identity (identity.rs, and the key and nonce types of challenge.rs) with Hex and Wire,
--               its texts. Crypto is the interface to the hash libraries, a parameter.
--   Ipc         packages/platform-windows/src/ipc: the control channel between the host's service
--               and its session agent. Message and Limits (message.rs), Codec (codec.rs), frames on
--               a buffer and on a stream.
--   Host        apps/host/src: Agent (agent.rs: the latches that commands set), Session (session.rs:
--               the session manager with its input gate), Control (AgentSession of agent.rs, which
--               drives both, and the boot-secret gate of control_loop.rs), Policy (policy.rs: whether a
--               viewer is admitted, and the authorization of a session). Host.Control uses Ipc.Message, Host.Session uses Auth.Identity.
--   Server      apps/server/src: OtpStore (otp.rs), the store of one-time codes.
--   Media       packages/media/src/jitter.rs: the jitter buffer of the receiving side.
--   Security    apps/server/src/security: AuthAttempts (auth_attempts.rs: failure counts and
--               lockouts) and Blocklist (blocklist.rs).
--   Viewer      packages/viewer-core/src: Connection (state.rs, driven by the states of
--               packages/net/src/types.rs), Coalescer and Capture (input.rs).
--
-- Map models HashMap as an association list, Text models str (Text.Trim its white space), and Prelude
-- collects the shared names, the Boolean tests and the 64-bit signed arithmetic. Tests holds concrete
-- runs.
--
-- How code corresponds to definitions: a method on a mutex-protected struct is a function from the
-- state to the new state and the answer, since each method holds the lock from start to end; a step
-- relation (Registry.History.Step) puts calls in any order. A function of Rust keeps its name. An
-- early return is a branch in the same order. Result and Option are kept; a panic is none, or the
-- error that precedes the expect. The error texts are values of Protocol.ErrorText.
--
-- Numbers and bounds. Times and durations are numbers of nanoseconds (of seconds in Auth.Otp); a
-- subtraction of durations that saturates in the source is the one of ℕ. Counters that wrap are taken
-- modulo 2^64, and those that saturate stop at the largest value. Instants and dates do not overflow
-- in the model. The counters of ids are 64-bit words, which wrap as well (as in a release build). No
-- definition needs fuel: every loop runs along a list or down a number.
--
-- Parameters. JSON values are a type that is never looked into. The registry's calls take the time, a
-- test that says which channels still have a receiver (constant during one call), a token digest and
-- a random body. HMAC, SHA-256 and the constant-time comparison are fields of Auth.Crypto, with the
-- law that the comparison decides equality; random draws are functions with their range as a
-- hypothesis. serde_json is the record Ipc.Codec.Json. A connection is the bytes that arrive and the
-- error behind them. Host.Control.World holds what the transport, the capture and the injector answer
-- to one command, and the injector's state is a type that is never looked into. An f64 in a control
-- message is its 64 bits. f32 in the viewer's capture is the record Viewer.Capture.Float. The order
-- in which a HashMap is iterated is that of the association list.
--
-- Not modelled: the HTTP and WebSocket handlers, the database, the WebRTC transport, codecs, capture
-- and injection on Windows and Linux, the user interfaces and the developers' agents, which are input
-- and output or calls of libraries; the code on f64 (rate limit, skew, freeze detection); and the
-- in-memory device repository, the client address, the RTP clock, the update manifest and the
-- viewer's session driver, which are not there yet.
pub mod Prelude
pub mod Map
pub mod Text
pub mod Protocol
pub mod Registry
pub mod Media
pub mod Auth
pub mod Security
pub mod Viewer
pub mod Tests
pub mod Ipc
pub mod Host
pub mod Server
