-- ===== src/Path.antt =====
-- crates/mtpx-core/src/path.rs and crates/mtpx-core/src/device_path.rs: the two path types, the rules
-- for their segments, and the `storage:/path` form of a remote argument.
pub mod Segment
pub mod RelPath
pub mod RemotePath
pub mod DevicePath
pub mod RoundTrip
pub mod Subtree
