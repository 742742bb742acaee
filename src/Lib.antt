-- ===== src/Lib.antt =====
-- Verification library of agent-mobile: a phone app and an agent that talk over an authenticated
-- channel, with voice frames and a display surface.
--
-- Parts, and the files that model them:
-- * proto.js. `ReplayWindow` is Replay; `encrypt`, `decrypt`, `nonceFor`, `parseNonce` and `Channel`
--   are Channel, with one window per stream. `send` and `recvBytes` are functions from a channel to
--   an outcome and the channel afterwards. The cipher is the parameter `Aead`. `transcript`, which
--   the handshake authenticates, is Transcript; the key schedule and the three messages are
--   Handshake, with results that carry the errors thrown, over the parameter `Crypto`.
-- * transport/adaptive-jitter.js. `AdaptiveJitterBuffer` is Jitter: `push`, `pull` and `tick` are
--   functions on the record `Buffer`. The arithmetic of the jitter estimate, floats in the source,
--   is the parameter `Estimator`.
-- * transport/wsframes.js is Frames, and transport/ws-client.mjs Client: `connect` is Client/Connect,
--   a step function over what the socket and the pairing hook do; what `AgentStream` does once it is
--   connected is Client, as functions that take what happens (a call, a message, a timer) and give
--   the effects and the client afterwards. It seals with Channel and packs with Frames. JSON is the
--   parameter `Codec`.
-- * transport/ws-gateway.js is WsGateway: the handler of a message over the state of the server and
--   that of the connection, with Handshake until the client has confirmed and Channel, Frames after
--   it. WsGateway/Pairing puts it together with Client/Connect.
-- * gateway.js is HttpGateway: the handler of a request over the table of sessions; HttpGateway/Agent
--   has the replies of the mock agent, HttpGateway/Changes the transitions of the table,
--   HttpGateway/Clients the client that `httpClientSession` makes, with `readBody`.
-- * transport/udp-media.js is Media: the datagram handler over Channel, Frames and Jitter, with the
--   loop of `pump` in Jitter/Pump.
-- * www/surface-core.js. `createSurface` is Surface: `apply` is a function of the surface and the
--   operation (Surface/Apply), with a function for each operation (Surface/Assets,
--   Surface/Widgets), and gives the surface afterwards with the events emitted.
-- * www/surface-host.js is SurfaceHost: the tiles with their frames and queues, over Surface, whose
--   events it handles. A frame is a number; what is posted to it or sent to the agent is an effect.
--   SurfaceHost has the tiles and their frames, SurfaceHost/Handlers the events of the core and
--   `applyOps`, SurfaceHost/Markup the escaping of texts.
--   SurfaceHost/Primitives draws the built-in primitives and has the document around a frame.
-- * www/renderer.js is Renderer: the page that `draw` writes, component by component; Renderer/Sandbox
--   wires the sandboxes of the page and hears their feedback, Renderer/Status is the status strip and
--   Renderer/Dispatch the listener of messages. Renderer/Reader says how a browser reads the markup,
--   apart from the source, and Renderer/Shown what a page has to show.
-- * www/bridge.js is Bridge: a step function over taps, calls of the page and what the promises of the
--   native plugin give; Bridge/Controls is the controls that the page always shows.
-- * vendor/hermes-plugin/sidecar/wire.mjs is Wire: `sendFrame`, with the state of the socket and the
--   count of drops as arguments. Sidecar is the control socket of index.mjs beside it: a step function
--   over what happens to the sockets of the adapter (data, ends) and the lines for it. A chunk is
--   bytes, and their decoding a parameter.
-- * Common holds tests on numbers, lists, association lists and literals; Bytes the big-endian integers.
--
-- Maps (JS objects, Map, Set) are association lists with distinct keys. Numbers are natural
-- numbers: counters stop at 2^53 - 1 as in the source, and where the source can go below 0 the
-- model says so at the place. Three loops run on fuel: that over the lines of a buffer in the sidecar,
-- with the number of its characters, as each turn takes one away at least; `_runAhead`, with the
-- number of buffered frames, as a run of consecutive keys is no longer than that; and the loop of
-- `pump`, with two more than that, as a pull takes a frame out of the buffer, or conceals the frame
-- that was waited for, or ends the loop.
--
-- Not modelled: the sockets, timers and clocks themselves, the DOM and the chart library, with the
-- theme of the charts in surface-host.js and renderer.js; in bridge.js the wave of the microphone and
-- the text of the sandbox preamble; the text of the malicious bundle in gateway.js; the rest of the
-- sidecar (its phone connections, the detection of utterances, the media), the Android and the Python
-- code. The operations of the surface follow the source for the names that an object does not inherit
-- (Surface/Names), and the conversion of a JSON value to a text does not throw.
mod Common
pub mod Bridge
pub mod Bytes
pub mod Renderer
pub mod Sidecar
pub mod Replay
pub mod Channel
pub mod Client
pub mod Frames
pub mod Handshake
pub mod HttpGateway
pub mod Jitter
pub mod Media
pub mod Surface
pub mod SurfaceHost
pub mod Transcript
pub mod Wire
pub mod WsGateway
