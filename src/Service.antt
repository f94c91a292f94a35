-- ===== src/Service.antt =====
-- rpckit/service.py
pub mod Templates
pub mod Matching
pub mod Endpoints
pub mod Mounting
pub mod Routing
pub mod Freeze
mod Tests
