-- ===== src/Errors.antt =====
-- RPC errors and the bindings of domain exceptions to them (rpckit/errors.py).
pub mod Types
pub mod Bindings
pub mod Declarations
pub mod Rejects
mod Tests
