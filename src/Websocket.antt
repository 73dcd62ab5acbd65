-- ===== src/Websocket.antt =====
-- RFC 6455 as src/protocol/websocket speaks it: the wire format of frames (`Frame`), the opening
-- handshake (`Handshake`) and the client (`Client`).
pub mod Frame
pub mod Handshake
pub mod Client
