-- ===== src/ListCompiler.antt =====
-- xr-lists/compile.py: the compiler from filter-list lines to the normalised list bundle.
pub mod Reason
pub mod Grammar
pub mod Domains
pub mod Outcome
pub mod WellFormed
pub mod Cosmetic
pub mod Network
pub mod Line
pub mod Bundle
mod Tests
