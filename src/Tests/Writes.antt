-- ===== src/Tests/Writes.antt =====
-- crates/mtpx-core/src/internal/local/mod.rs on a reliable disk in memory.
use mtpx.Base.{
  ℕ, zero, suc, ◌≡◌, refl, ap, sym, subst, inl, Bool, true, false, any, ◌&&◌, ◌==◌, nat_ord,
  list_ord, List, [], ◌∷◌, ◌++◌, length, take, Option, none, some, Result, ok, err, append-nil,
  arith,
}
use mtpx.Std.Text.{codes}
use mtpx.Entry.{ModifiedTime}
use mtpx.Partial.{Sidecar, Identity, Fingerprint, new_sidecar, is_valid_for}
use mtpx.Path.RelPath.{display}
use mtpx.Endpoint.{WriteRequest}
use mtpx.Error.{Error, IoError, IoErrorKind}
use mtpx.Local.Files.{Files, Bytes}
use mtpx.Local.Io.{State, probe, io, attempt, catch, pure, raise, ◌>>=◌}
use mtpx.Local.Laws.{Disk, IsFileSystem, without, Opens, Measures}
use mtpx.Local.Vouching.{drop_bytes, IsSound}
use mtpx.Local.Opening.{IsFresh}
use mtpx.Local.Triples.{IsSafe}
use mtpx.Local.Writer.{
  write, sidecar_for, refuse_directory, ensure_parent, remove_if_present, remove_sidecar,
  remove_partial, write_sidecar, effective_resume, ensure_still_holds, open_resumed, open_part,
  drop_record_unless, open_writer, flush, checkpoint, checkpoint_if_due, copy_chunks, landed, pump,
  keep_partial, discard_partial, stop, sync, commit, finish, fill, expect_length,
}
use mtpx.Local.Whole.{Leaves, write-Leaves, write-Leaves_after_cut}

-- Sidecars as numbers, with the lengths of two texts in front.
abbrev modified_code : Option ModifiedTime → ℕ × ℕ
modified_code none = (0, 0)
modified_code (some t) = (1, t.unix_seconds)

abbrev modified_of : ℕ → ℕ → Option ModifiedTime
modified_of zero seconds = none
modified_of (suc n) seconds = some (record { unix_seconds = seconds })

abbrev encode : Sidecar → Bytes
encode s =
    s.version
    ∷ s.bytes
    ∷ s.fingerprint.size
    ∷ (modified_code s.fingerprint.modified).0
    ∷ (modified_code s.fingerprint.modified).1
    ∷ length s.identity.device_serial
    ∷ length s.identity.storage
    ∷ (s.identity.device_serial ++ (s.identity.storage ++ s.path))

abbrev decode : Bytes → Option Sidecar
decode (version ∷ bytes ∷ size ∷ tag ∷ seconds ∷ n ∷ k ∷ rest) = some (record {
  version = version;
  identity = record { device_serial = take n rest; storage = take k (drop_bytes n rest) };
  path = drop_bytes k (drop_bytes n rest);
  fingerprint = record { size = size; modified = modified_of tag seconds };
  bytes = bytes;
})
decode _ = none

take-length : (xs ys : Bytes) → take (length xs) (xs ++ ys) ≡ xs
take-length [] ys = refl
take-length (x ∷ xs) ys = ap (◌∷◌ x) (take-length xs ys)

drop_bytes-length : (xs ys : Bytes) → drop_bytes (length xs) (xs ++ ys) ≡ ys
drop_bytes-length [] ys = refl
drop_bytes-length (x ∷ xs) ys = drop_bytes-length xs ys

modified-code : (m : Option ModifiedTime) → modified_of (modified_code m).0 (modified_code m).1 ≡ m
modified-code none = refl
modified-code (some t) = refl

pub decode-encode : (s : Sidecar) → decode (encode s) ≡ some s
decode-encode s =
    rw
      (
        drop_bytes-length s.identity.device_serial (s.identity.storage ++ s.path),
        take-length s.identity.device_serial (s.identity.storage ++ s.path),
        take-length s.identity.storage s.path,
        drop_bytes-length s.identity.storage s.path,
        modified-code s.fingerprint.modified,
      )
      refl

abbrev missing : IoError
missing = record { kind = IoErrorKind.not_found; message = [] }

abbrev opened : Option Bytes → Disk → Result (Unit {0}) IoError × Disk
opened none d = (err missing, d)
opened (some held) d = (ok tt, record d { accepted = held; position = 0 })

abbrev measured : Option Bytes → Disk → Result ℕ IoError × Disk
measured none d = (err missing, d)
measured (some held) d = (ok (length held), d)

abbrev fine : Disk → Result (Unit {0}) IoError × Disk
fine d = (ok tt, d)

abbrev pub memory : Files
memory = record {
  World = Disk;
  final_path = codes "/pictures/a.jpg";
  parent = some (codes "/pictures");
  to_json = λ s. ok (encode s);
  target_is_dir = λ d. (ok false, d);
  create_parents = fine;
  part_len = λ d. measured d.part d;
  remove = λ file d. fine (without file d);
  create_part = λ d. fine (record d { part = some []; accepted = []; position = 0 });
  open_part = λ d. opened d.part d;
  handle_len = λ d. measured d.part d;
  set_len =
      λ n d. fine (record d { part = some (take n d.accepted); accepted = take n d.accepted });
  seek = λ n d. fine (record d { position = n });
  write_all = λ chunk d. fine (record d {
    part = some (d.accepted ++ chunk);
    accepted = d.accepted ++ chunk;
    position = length (d.accepted ++ chunk);
  });
  flush = λ d. fine (record d { part = some d.accepted });
  set_modified = λ t d. fine d;
  sync_all = fine;
  write_tmp = λ json d. fine (record d { tmp = some json });
  rename_tmp = λ d. fine (record d { sidecar = d.tmp; tmp = none });
  rename_part = λ d. fine (record d { target = d.part; part = none });
}

pub opened-Opens :
    (d : Disk) (o : Option Bytes) → d.part ≡ o → Opens d (opened o d).0 (opened o d).1
opened-Opens d none h = refl
opened-Opens d (some held) h = (held, h, refl)

pub measured-Measures :
    (d : Disk) (o : Option Bytes) → d.part ≡ o → Measures d (measured o d).0 (measured o d).1
measured-Measures d none h = refl
measured-Measures d (some held) h = (held, h, refl, refl)

pub measured-same : (d : Disk) (o : Option Bytes) → (measured o d).1 ≡ d
measured-same d none = refl
measured-same d (some held) = refl

abbrev json_of : Bytes → Result Bytes IoError → Bytes
json_of default (ok json) = json
json_of default (err e) = default

abbrev pub memory_laws : IsFileSystem memory
memory_laws = record {
  disk = λ d. d;
  from_json = decode;
  json_round_trip =
      λ s json e. subst (λ l. decode l ≡ some s) (ap (json_of (encode s)) e) (decode-encode s);
  target_is_dir_law = λ d. refl;
  create_parents_law = λ d. refl;
  part_len_law = λ d. measured-same d d.part;
  set_modified_law = λ t d. refl;
  sync_all_law = λ d. refl;
  remove_law = λ file d. refl;
  create_part_law = λ d. refl;
  open_part_law = λ d. opened-Opens d d.part refl;
  handle_len_law = λ d. measured-Measures d d.part refl;
  set_len_law = λ n d h k. refl;
  seek_law = λ n d. refl;
  write_all_law =
      λ chunk d h. (d.accepted ++ chunk, ([], sym (append-nil (d.accepted ++ chunk))), refl);
  flush_law = λ d. refl;
  write_tmp_law = λ json d. refl;
  rename_tmp_law = λ d. refl;
  rename_part_law = λ d. refl;
}

abbrev pub phone : Identity
phone = record { device_serial = codes "ZY22"; storage = codes "Internal" }

abbrev pub photo : Bytes
photo = codes "0123456789"

abbrev pub old : Option Bytes
old = some (codes "old")

abbrev pub request : WriteRequest
request = record {
  path = codes "a.jpg" ∷ [];
  expected_size = 10;
  resume_from = 0;
  modified = some (record { unix_seconds = 7 });
}

abbrev pub version : Fingerprint
version = record { size = 10; modified = some (record { unix_seconds = 7 }) }

abbrev pub start : State ⊥ memory
start = record {
  world = record {
    part = none;
    sidecar = none;
    tmp = none;
    target = old;
    accepted = [];
    position = 0;
  };
  past = [];
}

-- Six bytes arrive, and the run is cancelled.
abbrev cut_short : List (Result Bytes (Error ⊥))
cut_short = ok (codes "0123") ∷ ok (codes "45") ∷ err Error.cancelled ∷ []

abbrev left_behind : Disk
left_behind = record {
  part = some (codes "012345");
  sidecar = some (encode (new_sidecar phone (codes "a.jpg" ∷ []) version 6));
  tmp = none;
  target = old;
  accepted = codes "012345";
  position = 6;
}

abbrev after_cut : (Result (Unit {0}) (Error ⊥) × State ⊥ memory)
after_cut = write ⊥ memory phone request cut_short start

write_cut_short : (after_cut.0 ≡ err Error.cancelled) × (after_cut.1.world ≡ left_behind)
unfolding write sidecar_for refuse_directory ensure_parent remove_if_present remove_sidecar
    remove_partial write_sidecar effective_resume ensure_still_holds open_resumed open_part
    drop_record_unless open_writer flush checkpoint checkpoint_if_due copy_chunks landed pump
    keep_partial discard_partial stop sync commit finish fill expect_length probe io attempt catch
    pure raise ◌>>=◌ new_sidecar
write_cut_short = (refl, refl)

pub start-IsSafe : IsSafe memory_laws (IsSound memory_laws photo version old) start
start-IsSafe = (((λ json s held h. absurd (cc h)), inl refl), tt)

pub start-IsFresh : IsFresh photo old 0 start.world
start-IsFresh = record { target = refl; planned_prefix = λ held h long. refl }

write-Leaves_example : Leaves memory_laws photo version old after_cut
write-Leaves_example =
    write-Leaves memory_laws photo version old phone request cut_short start refl (omega arith)
      (codes "456789", refl, (codes "6789", refl, tt)) start-IsFresh start-IsSafe

abbrev resumed : List (Result Bytes (Error ⊥))
resumed = ok (codes "67") ∷ ok (codes "89") ∷ []

write-Leaves_after_cut_example : Leaves memory_laws photo version old (
    write ⊥ memory phone
      (record request { resume_from = 6 })
      resumed
      (record { world = left_behind; past = [] }))
unfolding new_sidecar is_valid_for
write-Leaves_after_cut_example =
    write-Leaves_after_cut memory_laws photo version old phone request cut_short start left_behind
      (encode (new_sidecar phone (codes "a.jpg" ∷ []) version 6))
      (new_sidecar phone (codes "a.jpg" ∷ []) version 6) (codes "012345") resumed refl (omega arith)
      (codes "456789", refl, (codes "6789", refl, tt)) start-IsFresh start-IsSafe
      (inl (sym (write_cut_short.1))) refl refl refl refl refl refl (omega arith)
      (codes "89", refl, ([], refl, tt))

-- A part and a record from another device, and a write for this one that starts again.
abbrev tablet : Identity
tablet = record { device_serial = codes "T1"; storage = codes "Internal" }

abbrev tablet_record : Bytes
tablet_record = encode (new_sidecar tablet (codes "a.jpg" ∷ []) version 2)

abbrev earlier : State ⊥ memory
earlier = record {
  world = record start.world { part = some (codes "XY"); sidecar = some tablet_record };
  past = [];
}

abbrev is_held : Bytes → Option Bytes → Bool
is_held wanted none = false
is_held wanted (some held) = held == wanted

-- In one of the worlds, the old record counts bytes of the new part.
abbrev is_misleading : Disk → Bool
is_misleading d = is_held (codes "0123") d.part && is_held tablet_record d.sidecar

restarted_keeps_record :
    any is_misleading
      (write ⊥ memory phone request (ok (codes "0123") ∷ err Error.cancelled ∷ []) earlier).1.past
    ≡ true
unfolding write sidecar_for refuse_directory ensure_parent remove_if_present remove_sidecar
    remove_partial write_sidecar effective_resume ensure_still_holds open_resumed open_part
    drop_record_unless open_writer flush checkpoint checkpoint_if_due copy_chunks landed pump
    keep_partial discard_partial stop sync commit finish fill expect_length probe io attempt catch
    pure raise ◌>>=◌ new_sidecar display
restarted_keeps_record = refl
