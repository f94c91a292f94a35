-- ===== src/Runtime.antt =====
-- The JSON-RPC endpoint of rpckit/runtime.py: `_run_rpc_endpoint`, with its pending requests, its
-- reader, and the tasks that the reader starts.
pub mod State
pub mod Control
pub mod Reader
pub mod Tasks
pub mod Invariant
pub mod Routing
pub mod Cancellation
pub mod Replies
mod Tests
