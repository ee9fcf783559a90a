-- ===== src/Tests.antt =====
-- Runs of the definitions, and the theorems at concrete inputs.
mod Paths
mod Listings
mod Plans
mod Runs
mod Devices
mod Texts
mod Writes
mod Walks
mod Resolutions
mod Streams
mod Storages
mod Opens
