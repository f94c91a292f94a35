-- ===== src/Wire.antt =====
-- The JSON-RPC wire: request ids, the request envelope (rpckit/envelopes.py), its metadata
-- (rpckit/request_metadata.py) and what the server reads off a raw message (rpckit/server.py).
pub mod Metadata
pub mod Envelope
pub mod Inspect
pub mod Agreement
mod Tests
