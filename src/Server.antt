-- ===== src/Server.antt =====
-- The server (rpckit/server.py, rpckit/dispatch.py): from a raw message to its answer.
pub mod Response
pub mod Mapping
pub mod Protocol
pub mod Dispatch
mod Tests
