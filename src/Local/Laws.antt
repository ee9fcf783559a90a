-- ===== src/Local/Laws.antt =====
-- What the local endpoint relies on of the file system: the documented effect of each call on the
-- files of one transfer, whether it succeeds or fails. Nobody else touches these files.
use mtpx.Base.{ℕ, ◌≤◌, ◌≡◌, true, [], ◌++◌, length, take, Option, none, some, Result, ok, err}
use mtpx.Partial.{Sidecar}
use mtpx.Error.{IoError}
use mtpx.Local.Files.{Files, Bytes, TransferFile, part, sidecar, tmp}
use mtpx.Local.Io.{is_not_found}

-- The files of one transfer. The open part has been given `accepted`, of which the part on disk
-- may still lack an end; the next byte goes to `position`.
pub record Disk : Type 0 where
  pub part : Option Bytes
  pub sidecar : Option Bytes
  pub tmp : Option Bytes
  pub target : Option Bytes
  pub accepted : Bytes
  pub position : ℕ

-- The second list goes on where the first ends.
abbrev pub IsPrefix : Bytes → Bytes → Type 0
IsPrefix xs ys = (rest : Bytes) × (ys ≡ xs ++ rest)

abbrev pub without : TransferFile → Disk → Disk
without part d = record d { part = none }
without sidecar d = record d { sidecar = none }
without tmp d = record d { tmp = none }

-- A call that changes the disk in one way when it succeeds, and not at all when it fails.
abbrev pub Changes : {A : Type 0} → Disk → Result A IoError → Disk → Disk → Type 0
Changes d (ok a) d' changed = d' ≡ changed
Changes d (err e) d' changed = d' ≡ d

abbrev pub Removes : TransferFile → Disk → Result (Unit {0}) IoError → Disk → Type 0
Removes file d (ok a) d' = d' ≡ without file d
Removes file d (err e) d' = (d' ≡ d) × (is_not_found e.kind ≡ true → d ≡ without file d)

abbrev pub Opens : Disk → Result (Unit {0}) IoError → Disk → Type 0
Opens d (ok a) d' =
    (held : Bytes) × (d.part ≡ some held) × (d' ≡ record d { accepted = held; position = 0 })
Opens d (err e) d' = d' ≡ d

abbrev pub Measures : Disk → Result ℕ IoError → Disk → Type 0
Measures d (ok n) d' = (held : Bytes) × (d.part ≡ some held) × (n ≡ length held) × (d' ≡ d)
Measures d (err e) d' = d' ≡ d

-- What was accepted, and how much of it reached the disk.
abbrev pub Holds : Disk → Bytes → Disk → Type 0
Holds d accepted d' =
    (p : Bytes) × IsPrefix p accepted
    × (d' ≡ record d { part = some p; accepted = accepted; position = length accepted })

-- Bytes given to the end of the open part: all of them, or those before a failure.
abbrev pub Appends : Bytes → Disk → Result (Unit {0}) IoError → Disk → Type 0
Appends chunk d (ok a) d' = Holds d (d.accepted ++ chunk) d'
Appends chunk d (err e) d' =
    (given : Bytes) × IsPrefix given chunk × Holds d (d.accepted ++ given) d'

-- After a flush the disk has all that was accepted.
abbrev pub Flushes : Disk → Result (Unit {0}) IoError → Disk → Type 0
Flushes d (ok a) d' = d' ≡ record d { part = some d.accepted }
Flushes d (err e) d' = (p : Bytes) × IsPrefix p d.accepted × (d' ≡ record d { part = some p })

abbrev pub WritesTmp : Bytes → Disk → Result (Unit {0}) IoError → Disk → Type 0
WritesTmp json d (ok a) d' = d' ≡ record d { tmp = some json }
WritesTmp json d (err e) d' = (left : Option Bytes) × (d' ≡ record d { tmp = left })

pub record IsFileSystem (fs : Files) : Type 0 where
  pub disk : fs.World → Disk
  pub from_json : Bytes → Option Sidecar
  pub json_round_trip :
      (s : Sidecar) (json : Bytes) → fs.to_json s ≡ ok json → from_json json ≡ some s
  pub target_is_dir_law : (w : fs.World) → disk (fs.target_is_dir w).1 ≡ disk w
  pub create_parents_law : (w : fs.World) → disk (fs.create_parents w).1 ≡ disk w
  pub part_len_law : (w : fs.World) → disk (fs.part_len w).1 ≡ disk w
  pub set_modified_law : (t : _) (w : fs.World) → disk (fs.set_modified t w).1 ≡ disk w
  pub sync_all_law : (w : fs.World) → disk (fs.sync_all w).1 ≡ disk w
  pub remove_law :
      (file : TransferFile) (w : fs.World)
      → Removes file (disk w) (fs.remove file w).0 (disk (fs.remove file w).1)
  pub create_part_law :
      (w : fs.World)
      → Changes
          (disk w)
          (fs.create_part w).0
          (disk (fs.create_part w).1)
          (record (disk w) { part = some []; accepted = []; position = 0 })
  pub open_part_law : (w : fs.World) → Opens (disk w) (fs.open_part w).0 (disk (fs.open_part w).1)
  pub handle_len_law :
      (w : fs.World) → Measures (disk w) (fs.handle_len w).0 (disk (fs.handle_len w).1)
  -- An open part that nothing was written to is cut off.
  pub set_len_law :
      (n : ℕ) (w : fs.World)
      → (disk w).part ≡ some ((disk w).accepted)
      → n ≤ length ((disk w).accepted)
      → let cut = take n ((disk w).accepted) in
        Changes
          (disk w)
          (fs.set_len n w).0
          (disk (fs.set_len n w).1)
          (record (disk w) { part = some cut; accepted = cut })
  pub seek_law :
      (n : ℕ) (w : fs.World)
      → Changes (disk w) (fs.seek n w).0 (disk (fs.seek n w).1) (record (disk w) { position = n })
  pub write_all_law :
      (chunk : Bytes) (w : fs.World)
      → (disk w).position ≡ length ((disk w).accepted)
      → Appends chunk (disk w) (fs.write_all chunk w).0 (disk (fs.write_all chunk w).1)
  pub flush_law : (w : fs.World) → Flushes (disk w) (fs.flush w).0 (disk (fs.flush w).1)
  pub write_tmp_law :
      (json : Bytes) (w : fs.World)
      → WritesTmp json (disk w) (fs.write_tmp json w).0 (disk (fs.write_tmp json w).1)
  pub rename_tmp_law :
      (w : fs.World)
      → Changes
          (disk w)
          (fs.rename_tmp w).0
          (disk (fs.rename_tmp w).1)
          (record (disk w) { sidecar = (disk w).tmp; tmp = none })
  pub rename_part_law :
      (w : fs.World)
      → Changes
          (disk w)
          (fs.rename_part w).0
          (disk (fs.rename_part w).1)
          (record (disk w) { target = (disk w).part; part = none })
