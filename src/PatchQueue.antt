-- ===== src/PatchQueue.antt =====
-- build/patching/apply.py: the applicator of the patch queue.
pub mod Ledger
pub mod Git
pub mod Paths
pub mod Command
mod Tests
