-- ===== src/Connection.antt =====
-- Connections (rpckit/connection.py): close codes and rejections, limits, and the life of one
-- connection.
pub mod Close
pub mod Rejection
pub mod Limits
pub mod Life
mod Tests
