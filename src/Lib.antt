-- ===== src/Lib.antt =====
-- TermLink: remote terminals over a framed TCP protocol, a relay with a web page in front of it,
-- and device agents behind it. This library models the parts that decide what passes: the wire
-- protocol (shared/protocol), the server's connection (server/src), the client's state machine
-- (client/src/protocol.ts), the protocol of device agents (shared/device) and the relay's
-- registries and bridge (relay/src). Each model is a shallow translation: a class is a record of
-- its fields, a method a function from the record to the record it leaves, a thrown `FrameError`
-- an `err`, a call on something outside the component an entry in a list of outputs.
--
-- The files and what they model:
--   Prelude       shared names, Boolean tests, lists, `Map` with string keys, results
--   Json          the values of `JSON.parse`, and the tests that validation makes on them
--   Message       shared/protocol/types.ts: the messages and their object literals;
--                 Message/Valid: `isValidMessage`, `isClientMessage`, `isServerMessage` of
--                 shared/protocol/framing.ts; Message/Typed: their theorems; Message/Server: the
--                 reading of a validated object as a `ServerMessage`
--   Framing       shared/protocol/framing.ts: `encodeFrame`, `FrameDecoder`, and the loop of
--                 `Connection.onData` that reads from it; Framing/Bytes, Decode, Drain, Stream and
--                 Transfer: their theorems
--   Protocol      server/src/protocol.ts: the server's state machine; Protocol/Safety and
--                 Protocol/Peer: its theorems, alone and with the client's
--   ClientProtocol  client/src/protocol.ts: the client's state machine, `buildAuthRequest`
--   Credentials   server/src/auth.ts: hashed secrets, `CredentialStore`
--   Sessions      server/src/sessions.ts: the registry of authenticated sessions
--   RateLimit     server/src/rate-limit.ts: the limiter of authentication attempts
--   Connection    server/src/connection.ts: one connection, with the registry and the limiter
--                 that it shares; Connection/Receive: `onData`; Connection/Events: the end of a
--                 verification (the code behind its `await`), timers, the terminal, the close;
--                 Connection/Moves, Auth and Crash: the theorems
--   DeviceProtocol  shared/device/protocol.ts: the messages of device agents
--   DeviceStore   relay/src/device-store.ts: enrollment and presence of devices
--   DeviceConfig  relay/src/device-config.ts: the devices that DEVICES names; DeviceConfig/Trim, Parse,
--                 Entry and Print: the theorems
--   GuiSessions   relay/src/gui-sessions.ts: the sessions of the web page
--   RelaySession  relay/src/session.ts: the bridge between a client and its backend
--   ClientHalf    relay/src/ws-client-half.ts: the client's half of a relay session on a WebSocket:
--                 sending, its backpressure, the close; ClientHalf/Receive: messages, held back while
--                 the backend is paused; ClientHalf/Events: authentication, timers, all events;
--                 Moves, Verify, Inbound, Outbound, Life, Served, Stall, Progress and Crash: the
--                 theorems
--   Transport     client/src/transport.ts: the TCP client, of the command line and of the relay's
--                 backend half; Transport/Receive: what it reads; Transport/Events: its sockets,
--                 timers and reconnection; Moves, Life, Flush, Order and Repeat: the theorems
--   RelayClient   agent/src/relay-client.ts: an agent's connection to the relay; RelayClient/Events:
--                 its messages and timers; Life and Faults: the theorems
--   WebTransport  web/src/transport.ts: the web page's connection to the relay, its buffer and its
--                 close; WebTransport/Events: messages, reconnection, all events; Moves, Flush and
--                 Life: the theorems
--   HttpSessions  relay/src/http-sessions.ts: the logins of the web page; HttpSessions/Order,
--                 Eviction and Store: the theorems
--   AgentSession  relay/src/agent-session.ts: a terminal channel between a browser and an agent
--   AgentLink     relay/src/agent-link.ts: the connection of one device agent; AgentLink/Messages:
--                 its messages, channels and events; Goes, Calm and Lifetime: the theorems
--   DeviceManager relay/src/device-manager.ts: the links of all agents, with the store and the
--                 limiter that they share; DeviceManager/Links, Known and Life: the theorems
--
-- How they interact: a connection feeds its decoder, hands each valid client message to its
-- `Protocol`, and answers the callbacks of that machine, which the model returns as a list; the
-- limiter and the registry are fields of the connection's state. Several connections of one
-- server are not put together; the links of the agents are, by DeviceManager, which runs each call
-- of a link on the shared store. An `async` function is two operations, one up to its `await` and
-- one behind it, with the calls that wait kept in a list (`pending` of a connection and of a link,
-- `hashing` of the store), so that any other events may come in between.
-- A bridge that pauses or ends its half inside a call of it is an argument of the half's operation
-- (`Reaction`); what the owner of a `Transport` client sends, closes or destroys inside an event is
-- a function of its configuration (`on_event`); the sockets of `Transport` and `RelayClient` answer
-- by arguments too.
--
-- Times are natural numbers and arguments of the operations, as are drawn ids and salts. `now -
-- since >= window` is written `since + window ≤ now`. Outside code is a parameter: the text of a
-- JSON value (`stringify`, `parse`), `scrypt`, the length of a string in code units, and what a
-- socket or a terminal answers. Where a theorem relies on `stringify` and `parse`, its
-- hypothesis is that the one reads back what the other wrote; where it relies on `scrypt`, that
-- it returns some bytes.
--
-- Fuel: the loop over a decoder is on fuel, one more than the bytes in its buffer. Each round
-- takes at least one byte, so it never runs out (Framing/Drain). All other loops are structural.
--
-- Not modelled: the backpressure of sockets inside `Connection` (pause and resume of reads), log
-- lines, the terminals themselves (server/src/pty.ts, server/src/ssh-backend.ts), the HTTP front of
-- the relay, the other configuration, command lines, the agent's processes, the cli and the rest of
-- the web page.
pub mod Prelude
pub mod Credentials
pub mod Json
pub mod Message
pub mod Framing
pub mod Protocol
pub mod ClientProtocol
pub mod Sessions
pub mod RateLimit
pub mod Connection
pub mod DeviceProtocol
pub mod DeviceStore
pub mod GuiSessions
pub mod RelaySession
pub mod ClientHalf
pub mod Transport
pub mod RelayClient
pub mod HttpSessions
pub mod DeviceConfig
pub mod DeviceManager
pub mod WebTransport
pub mod AgentSession
pub mod AgentLink
