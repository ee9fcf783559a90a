-- ===== src/Local.antt =====
-- The local endpoint, from crates/mtpx-core/src/internal/local.
pub mod Files
pub mod Io
pub mod Writer
pub mod Laws
pub mod Triples
pub mod Vouching
pub mod Opening
pub mod Preparing
pub mod Filling
pub mod Pumping
pub mod Flushing
pub mod Written
pub mod Whole
