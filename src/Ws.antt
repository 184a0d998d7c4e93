-- ===== src/Ws.antt =====
-- src/core/WsSession.cpp and src/core/WsServer.cpp.
pub mod Writer
pub mod Dispatch
pub mod Server
pub mod Life
