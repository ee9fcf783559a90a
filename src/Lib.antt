-- ===== src/Lib.antt =====
-- mtpx: file transfers between a computer and an MTP device, planned from two listings and resumable.
--
-- A transfer scans both sides into snapshots, plans the actions that make the destination agree with
-- the source, and runs the plan action by action. Each part has its module, with the names of the
-- source in this language's spelling:
--
-- - Base: shared helpers. Result with its do blocks, Boolean tests, orders, lemmas on lists.
-- - Std: what the sources use of Rust's standard library on texts, numbers and paths. A text is the
--   list of its code points.
-- - Path: crates/mtpx-core/src/path.rs (Segment, RelPath, RemotePath, Subtree) and
--   crates/mtpx-core/src/device_path.rs (DevicePath). `cfg!(windows)` is false, as on Unix; the
--   Windows rule for names is there as a function of its own.
-- - Entry, Snapshot: crates/mtpx-core/src/entry.rs. `sort_by` is a stable insertion sort, and
--   `binary_search_by` runs on fuel that is the number of entries: every round drops one at least.
-- - Discovery, Error, Options, Plan, Event: the files of those names in crates/mtpx-core/src.
-- - Mtp: the vocabulary of the mtp-rs crate; what the sources do not name of it is a parameter.
-- - Partial: crates/mtpx-core/src/internal/partial.rs: what a sidecar says and when it is valid.
-- - Planner: crates/mtpx-core/src/planner.rs. A hash map is an association list. The fields of
--   `Decider` that never change are parameters. `str::to_lowercase` is the parameter `lower`.
-- - Endpoint, Executor: crates/mtpx-core/src/internal/endpoint.rs and
--   crates/mtpx-core/src/internal/executor.rs. The endpoints, the clock and the cancel token are a
--   record `Env` over an abstract world, so every theorem holds for all of their behaviours. An
--   awaited call passes the state on; an event that is sent is appended to the state's events.
--   `write` yields the chunks that passed through the reporting stream.
-- - Local: the writes of crates/mtpx-core/src/internal/local/mod.rs (Writer), with the sidecar
--   operations of crates/mtpx-core/src/internal/partial.rs. The file system is a parameter: Files has
--   the calls for one final path, whose place in the endpoint's root is a parameter with it, and Laws
--   the effect that each is documented to have on the part, the sidecar and the final path, when it
--   succeeds and when it fails. Io threads the state and keeps every world that was passed, because a
--   process may be killed in any of them. Nobody else touches the files of a transfer, and a blocking
--   task does not panic. Triples has the reasoning on such code; the files beside it go through a
--   write from its start (Opening) to its end (Written), and Whole puts them together.
-- - Remote: the device side, crates/mtpx-core/src/internal/mtp. A storage of the mtp-rs crate is a
--   parameter (Storage): an abstract world, with calls that may fail. Listing, Walk and Pick are
--   scan.rs, Resolver is resolver.rs with the lock left out, Open is open.rs, and Scan and Pump are
--   the scan and the stream of mod.rs; a channel is the list of what is sent. Named, Rounds, Tree,
--   Growing, Seen, Finite, Walks and Picked are on the scan; Locating, Resolving, Resolved and Attempts are
--   on the resolver; Opened is on the root, and Priming on the cache after a scan.
-- - Pull: the stream of a device and the local write, put together.
-- - Hints: what crates/mtpx-core/src/device/pull.rs announces with a plan.
-- - Device: the storages and the serial of an open device, in crates/mtpx-core/src/device/mod.rs.
-- - Display: crates/mtpx-core/src/display.rs.
-- - Format: crates/mtpx/src/ui/format.rs, what of it is not the humansize crate's, nor a summary line.
-- - Exit: crates/mtpx/src/exit.rs, and what `main` makes of a command's result.
--
-- Bounds and fuel: the `u64` sums of a plan saturate and those of a run wrap around as the source's do,
-- in a release build. What counts entries or actions one by one, and the bytes that a write has counted
-- since its start, are natural numbers: they are no more than a list in memory or a file can hold.
-- A walk of a device runs on one round more than there are handles, which are numbers of a fixed width.
-- A pump runs on one round more than the bytes that are left: no window is empty.
-- Printing a number runs on fuel of 20 digits, which a `u64` never exceeds. The loop of `back_off`
-- runs on one round for every millisecond of the wait and one more.
--
-- Not modelled: the scan and the read of a file in crates/mtpx-core/src/internal/local, and the rest of
-- crates/mtpx-core/src/internal/mtp, which are calls of file system and USB; the entry points in
-- crates/mtpx-core/src/device that scan, plan and run; the conversion of an MTP date, which the jiff crate
-- does; the texts of error messages; the command line and its terminal output in crates/mtpx, but for
-- the exit codes and the formats.
pub mod Base
pub mod Std
pub mod Path
pub mod Entry
pub mod Snapshot
pub mod Mtp
pub mod Discovery
pub mod Error
pub mod Options
pub mod Plan
pub mod Partial
pub mod Planner
pub mod Event
pub mod Endpoint
pub mod Executor
pub mod Exit
pub mod Display
pub mod Hints
pub mod Format
pub mod Local
pub mod Remote
pub mod Pull
pub mod Device
mod Tests
