-- ===== src/Local/Files.antt =====
-- What the local endpoint asks of the file system (tokio's `fs`) for one final path and the three
-- files beside it. Every call may fail, and may change the world.
use mtpx.Base.{ℕ, Bool, List, Option, Result}
use mtpx.Std.Text.{Str}
use mtpx.Entry.{SystemTime}
use mtpx.Partial.{Sidecar}
use mtpx.Error.{IoError}

abbrev pub Bytes : Type 0
Bytes = List ℕ

-- The files that a transfer leaves beside the final path until it is done.
pub data TransferFile : Type 0 where
  part sidecar tmp : TransferFile

pub record Files : Type 1 where
  pub World : Type 0
  -- The path in the endpoint's root, and its `Path::parent`.
  pub final_path : Str
  pub parent : Option Str
  -- `serde_json`, and whether the final path is a directory.
  pub to_json : Sidecar → Result Bytes IoError
  pub target_is_dir : World → Result Bool IoError × World
  pub create_parents : World → Result (Unit {0}) IoError × World
  pub part_len : World → Result ℕ IoError × World
  pub remove : TransferFile → World → Result (Unit {0}) IoError × World
  -- The part is opened by one of the first two; the rest goes through the open file.
  pub create_part : World → Result (Unit {0}) IoError × World
  pub open_part : World → Result (Unit {0}) IoError × World
  pub handle_len : World → Result ℕ IoError × World
  pub set_len : ℕ → World → Result (Unit {0}) IoError × World
  pub seek : ℕ → World → Result (Unit {0}) IoError × World
  pub write_all : Bytes → World → Result (Unit {0}) IoError × World
  pub flush : World → Result (Unit {0}) IoError × World
  pub set_modified : SystemTime → World → Result (Unit {0}) IoError × World
  pub sync_all : World → Result (Unit {0}) IoError × World
  pub write_tmp : Bytes → World → Result (Unit {0}) IoError × World
  pub rename_tmp : World → Result (Unit {0}) IoError × World
  pub rename_part : World → Result (Unit {0}) IoError × World
