-- ===== src/Std.antt =====
-- What the program uses of Rust's standard library on text and on paths of a Unix host.
pub mod Text
pub mod Paths
pub mod Numbers
