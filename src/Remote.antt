-- ===== src/Remote.antt =====
-- The device side of a transfer, from crates/mtpx-core/src/internal/mtp.
pub mod Storage
pub mod Listing
pub mod Named
pub mod Walk
pub mod Rounds
pub mod Tree
pub mod Growing
pub mod Seen
pub mod Finite
pub mod Pigeons
pub mod Walks
pub mod Resolver
pub mod Locating
pub mod Resolving
pub mod Resolved
pub mod Attempts
pub mod Pump
pub mod Open
pub mod Opened
pub mod Pick
pub mod Picked
pub mod Priming
pub mod Scan
