-- ===== src/Upstream.antt =====
-- build/upstream: whether the patch queue still applies at another upstream revision.
pub mod Class
pub mod Classify
mod Tests
