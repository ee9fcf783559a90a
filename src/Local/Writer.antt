-- ===== src/Local/Writer.antt =====
-- A resumable write, from crates/mtpx-core/src/internal/local/mod.rs, with the sidecar operations of
-- crates/mtpx-core/src/internal/partial.rs. A method that changes the writer returns it, after an
-- error too. A blocking task that panics is not modelled.
use mtpx.Base.{
  ℕ, ◌+◌, ◌-◌, ◌*◌, min, leb, nat_eq, Bool, true, false, ◌&&◌, List, [], ◌∷◌, ◌++◌, length, Option,
  none, some, if◌then◌else◌, Result, ok, err,
}
use mtpx.Std.Text.{Str, codes}
use mtpx.Entry.{ModifiedTime, as_system}
use mtpx.Partial.{Identity, Sidecar, new_sidecar, part_suffix, sidecar_suffix, sidecar_tmp_suffix}
use mtpx.Endpoint.{WriteRequest}
use mtpx.Error.{Error, IoError, IoErrorKind}
use mtpx.Local.Files.{Files, Bytes, TransferFile, part, sidecar, tmp}
use mtpx.Local.Io.{
  State, Io, call, pure, raise, probe, attempt, catch, ◌>>=◌, ◌>>◌, io, is_not_found,
}

abbrev pub checkpoint_bytes : ℕ
checkpoint_bytes = 64 * 1024 * 1024

unfoldable pub sidecar_for : Identity → WriteRequest → Sidecar
sidecar_for peer request =
    new_sidecar peer request.path
      (record { size = request.expected_size; modified = request.modified }) request.resume_from

-- The open file stands in the world.
pub record PartWriter : Type 0 where
  pub sidecar : Sidecar
  pub resumable : Bool
  pub checkpointed : ℕ

abbrev pub with_bytes : Sidecar → ℕ → Sidecar
with_bytes s n = record s { bytes = n }

abbrev pub counted : PartWriter → ℕ → PartWriter
counted w n = record w { sidecar = with_bytes w.sidecar n }

unfoldable pub expect_length :
    {Other : Type 0} → PartWriter → WriteRequest → Result (Unit {0}) (Error Other)
expect_length w request =
    if nat_eq w.sidecar.bytes request.expected_size
    then ok tt
    else err (Error.length_mismatch request.path request.expected_size w.sidecar.bytes)

abbrev pub path_of : Files → TransferFile → Str
path_of fs part = fs.final_path ++ part_suffix
path_of fs sidecar = fs.final_path ++ sidecar_suffix
path_of fs tmp = fs.final_path ++ sidecar_tmp_suffix

-- The counter, or less where less is on disk.
abbrev pub least : ℕ → Result ℕ IoError → ℕ
least bytes (ok len) = min bytes len
least bytes (err e) = bytes

module _ (Other : Type 0) (fs : Files) where
  abbrev pub not_a_directory : Result Bool IoError → Result (Unit {0}) (Error Other)
  not_a_directory (ok true) = err (
      Error.local_io (codes "write") fs.final_path
        (record { kind = IoErrorKind.is_a_directory; message = [] }))
  not_a_directory (ok false) = ok tt
  not_a_directory (err e) =
      if is_not_found e.kind then ok tt else err (Error.local_io (codes "stat") fs.final_path e)

  unfoldable pub refuse_directory : Io Other fs (Unit {0})
  refuse_directory = probe fs.target_is_dir not_a_directory

  abbrev pub create_parent : Option Str → Io Other fs (Unit {0})
  create_parent none = pure tt
  create_parent (some parent) = io (codes "create directory") parent fs.create_parents

  unfoldable pub ensure_parent : Io Other fs (Unit {0})
  ensure_parent = create_parent fs.parent

  abbrev pub absent_is_fine :
      TransferFile → Result (Unit {0}) IoError → Result (Unit {0}) (Error Other)
  absent_is_fine file (ok u) = ok tt
  absent_is_fine file (err e) =
      if is_not_found e.kind
      then ok tt
      else err (Error.local_io (codes "remove") (path_of fs file) e)

  unfoldable pub remove_if_present : TransferFile → Io Other fs (Unit {0})
  remove_if_present file = probe (fs.remove file) (absent_is_fine file)

  unfoldable pub remove_sidecar : Io Other fs (Unit {0})
  remove_sidecar = remove_if_present tmp >> remove_if_present sidecar

  unfoldable pub remove_partial : Io Other fs (Unit {0})
  remove_partial = remove_if_present part >> remove_sidecar

  abbrev pub write_json : Result Bytes IoError → Io Other fs (Unit {0})
  write_json (err e) = raise (Error.io e)
  write_json (ok json) =
      io (codes "write sidecar") (path_of fs tmp) (fs.write_tmp json)
      >> io (codes "rename sidecar") (path_of fs tmp) fs.rename_tmp

  unfoldable pub write_sidecar : Sidecar → Io Other fs (Unit {0})
  write_sidecar record' = write_json (fs.to_json record')

  -- What is on disk by the probe: an absent part holds nothing.
  abbrev pub on_disk : Result ℕ IoError → Result ℕ (Error Other)
  on_disk (ok n) = ok n
  on_disk (err e) =
      if is_not_found e.kind then ok 0 else err (Error.local_io (codes "stat") (path_of fs part) e)

  -- A part that is shorter than requested starts again.
  abbrev pub offset_of : ℕ → Result ℕ (Error Other) → Result ℕ (Error Other)
  offset_of requested (ok held) = ok (if leb requested held then requested else 0)
  offset_of requested (err e) = err e

  abbrev pub offset_held : ℕ → Result ℕ IoError → Result ℕ (Error Other)
  offset_held requested meta = offset_of requested (on_disk meta)

  unfoldable pub effective_resume : ℕ → Io Other fs ℕ
  effective_resume requested =
      if nat_eq requested 0 then pure 0 else probe fs.part_len (offset_held requested)

  unfoldable pub ensure_still_holds : ℕ → Io Other fs (Unit {0})
  ensure_still_holds resume_from = do
    len ← io (codes "stat") (path_of fs part) fs.handle_len
    (if leb resume_from len
        then pure tt
        else raise (
            Error.local_io (codes "open") (path_of fs part) (record {
              kind = IoErrorKind.invalid_data;
              message = codes "partial file changed while opening";
            })))

  unfoldable pub open_resumed : ℕ → Io Other fs (Unit {0})
  open_resumed resume_from = do
    io (codes "open") (path_of fs part) fs.open_part
    ensure_still_holds resume_from
    io (codes "truncate") (path_of fs part) (fs.set_len resume_from)
    io (codes "seek") (path_of fs part) (fs.seek resume_from)

  unfoldable pub open_part : ℕ → Io Other fs (Unit {0})
  open_part resume_from =
      if nat_eq resume_from 0
      then io (codes "open") (path_of fs part) fs.create_part
      else open_resumed resume_from

  -- The old record goes before the part regrows past its count.
  unfoldable pub drop_record_unless : Bool → Io Other fs (Unit {0})
  drop_record_unless true = pure tt
  drop_record_unless false = remove_sidecar

  -- `PartWriter::open`
  unfoldable pub open_writer : Sidecar → Io Other fs PartWriter
  open_writer planned = do
    ensure_parent
    bytes ← effective_resume planned.bytes
    drop_record_unless (nat_eq bytes planned.bytes)
    open_part bytes
    pure (record {
      sidecar = with_bytes planned bytes;
      resumable = nat_eq bytes planned.bytes;
      checkpointed = bytes;
    })

  unfoldable pub flush : Io Other fs (Unit {0})
  flush = io (codes "write") (path_of fs part) fs.flush

  -- A method on the writer.
  abbrev pub Method : Type 0
  Method =
      PartWriter → State Other fs → (Result (Unit {0}) (Error Other) × PartWriter) × State Other fs

  unfoldable pub checkpoint : Method
  checkpoint w s =
      let (r, s') = (flush >> write_sidecar w.sidecar) s in
      elim r [
        | ok _ ↦ ((ok tt, record w { checkpointed = w.sidecar.bytes }), s')
        | err e ↦ ((err e, w), s')
      ]

  unfoldable pub checkpoint_if_due : Method
  checkpoint_if_due w s =
      elim (w.resumable && leb checkpoint_bytes (w.sidecar.bytes - w.checkpointed)) [
        | true ↦ checkpoint w s
        | false ↦ ((ok tt, w), s)
      ]

  unfoldable pub copy_chunks : List (Result Bytes (Error Other)) → Method
  copy_chunks [] w s = ((ok tt, w), s)
  copy_chunks (err e ∷ input) w s = ((err e, w), s)
  copy_chunks (ok chunk ∷ input) w s =
      let (r, s1) = io (codes "write") (path_of fs part) (fs.write_all chunk) s in
      elim r [
        | err e ↦ ((err e, w), s1)
        | ok _ ↦
            let ((kept, w2), s2) =
              checkpoint_if_due (counted w (w.sidecar.bytes + length chunk)) s1 in
            elim kept [ err e ↦ ((err e, w2), s2) | ok _ ↦ copy_chunks input w2 s2 ]
      ]

  unfoldable pub landed : PartWriter → State Other fs → ℕ × State Other fs
  landed w s = let (meta, s') = call fs.handle_len s in (least w.sidecar.bytes meta, s')

  -- `Result::and`
  abbrev pub and :
      Result (Unit {0}) (Error Other)
      → Result (Unit {0}) (Error Other)
      → Result (Unit {0}) (Error Other)
  and (ok _) r = r
  and (err e) r = err e

  unfoldable pub pump : List (Result Bytes (Error Other)) → Method
  pump input w s =
      let ((copied, w1), s1) = copy_chunks input w s in
      let (flushed, s2) = flush s1 in
      let (bytes, s3) = landed w1 s2 in ((and copied flushed, counted w1 bytes), s3)

  unfoldable pub keep_partial : Sidecar → Error Other → Io Other fs (Unit {0})
  keep_partial record' error = attempt (write_sidecar record') >> raise error

  unfoldable pub discard_partial : Error Other → Io Other fs (Unit {0})
  discard_partial error = attempt remove_partial >> raise error

  unfoldable pub stop : PartWriter → Error Other → Io Other fs (Unit {0})
  stop w error = if w.resumable then keep_partial w.sidecar error else discard_partial error

  -- The stamp is best-effort.
  abbrev pub stamp : Option ModifiedTime → Io Other fs (Unit {0})
  stamp none = pure tt
  stamp (some modified) = attempt (io [] [] (fs.set_modified (as_system modified)))

  unfoldable pub sync : Option ModifiedTime → Io Other fs (Unit {0})
  sync modified = stamp modified >> io (codes "sync") (path_of fs part) fs.sync_all

  -- A record that stays behind has no part, which scans ignore.
  unfoldable pub commit : Option ModifiedTime → Io Other fs (Unit {0})
  commit modified = do
    sync modified
    io (codes "rename") (path_of fs part) fs.rename_part
    attempt remove_sidecar

  unfoldable pub finish : PartWriter → Option ModifiedTime → Io Other fs (Unit {0})
  finish w modified = catch (commit modified) (keep_partial w.sidecar)

  -- What `write` does with an open part.
  unfoldable pub fill :
      WriteRequest → List (Result Bytes (Error Other)) → PartWriter → Io Other fs (Unit {0})
  fill request input w s =
      let ((pumped, w'), s') = pump input w s in
      elim (and pumped (expect_length w' request)) [
        | ok _ ↦ finish w' request.modified s'
        | err e ↦ stop w' e s'
      ]

  unfoldable pub write :
      Identity → WriteRequest → List (Result Bytes (Error Other)) → Io Other fs (Unit {0})
  write peer request input = do
    refuse_directory
    w ← open_writer (sidecar_for peer request)
    fill request input w
