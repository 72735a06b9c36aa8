-- ===== src/Websocket.antt =====
-- src/core/network/websocket: the transport of web clients, whose messages are JSON.
pub mod Ansi
pub mod Frames
pub mod Connection
