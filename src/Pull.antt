-- ===== src/Pull.antt =====
-- A file pulled from a device into the local side: the stream of
-- crates/mtpx-core/src/internal/mtp/mod.rs into the write of
-- crates/mtpx-core/src/internal/local/mod.rs.
use mtpx.Base.{ℕ, suc, ◌≤◌, ◌≡◌, subst, List, length, Option, some, Result, zero, [], ◌∷◌, arith}
use mtpx.Error.{Error}
use mtpx.Partial.{Identity, Fingerprint}
use mtpx.Endpoint.{WriteRequest}
use mtpx.Local.Files.{Files, Bytes}
use mtpx.Local.Io.{State}
use mtpx.Local.Laws.{IsFileSystem}
use mtpx.Local.Triples.{IsSafe}
use mtpx.Local.Vouching.{drop_bytes, IsSound}
use mtpx.Local.Opening.{IsFresh}
use mtpx.Local.Filling.{Delivers}
use mtpx.Local.Writer.{write}
use mtpx.Local.Whole.{Leaves, write-Leaves}
use mtpx.Remote.Pump.{Download, pump, IsServing, IsStream-Delivers, pump-Streams}

length-drop_bytes : (n : ℕ) (xs : Bytes) → length (drop_bytes n xs) ≤ length xs
length-drop_bytes zero xs = omega arith
length-drop_bytes (suc n) [] = omega arith
length-drop_bytes (suc n) (x ∷ xs) = omega (arith, length-drop_bytes n xs)

module _ {Other : Type 0} {fs : Files} (laws : IsFileSystem fs) (content : Bytes)
    (fingerprint : Fingerprint) (before : Option Bytes) (download : Download Other)
    (serving : IsServing download content) where
  -- Where a device serves a file of the expected size from the offset that the write goes on from, and
  -- the disk is sound and its part starts as the file does, the stream ends, and the write of what it
  -- brought leaves the disk as every write does: sound in every world, with the whole file at the final
  -- path if it succeeds, and with what was there before if it fails.
  pub pump-write-Leaves :
      (peer : Identity) (request : WriteRequest) (w : download.World) (s : State Other fs)
      → request.expected_size ≡ length content
      → request.resume_from ≤ request.expected_size
      → download.offset w ≡ request.resume_from
      → IsFresh content before request.resume_from (laws.disk s.world)
      → IsSafe laws (IsSound laws content fingerprint before) s
      → (items : List (Result Bytes (Error Other))) × (w' : download.World) × (pump download
            (suc (length content))
            w
          ≡ some (items, w'))
        × Leaves laws content fingerprint before (write Other fs peer request items s)
  pump-write-Leaves peer request w s size fits at fresh safe =
      let (items, w', e, stream) =
        pump-Streams download content serving (suc (length content)) w
          (omega (arith, length-drop_bytes (download.offset w) content)) in
      (
        items,
        w',
        e,
        write-Leaves laws content fingerprint before peer request items s size fits
            (subst (λ n. Delivers items (drop_bytes n content)) at
              (IsStream-Delivers items (drop_bytes (download.offset w) content) stream))
            fresh safe,
      )
