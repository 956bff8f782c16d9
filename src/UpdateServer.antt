-- ===== src/UpdateServer.antt =====
-- release/server/refimpl/update_server_ref.py: the reference update server.
pub mod Answer
pub mod Platform
pub mod Version
pub mod Spec
pub mod Check
pub mod Handle
pub mod Render
mod Tests
