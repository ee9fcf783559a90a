-- ===== src/Local/Flushing.antt =====
-- The end of a stream, for crates/mtpx-core/src/internal/local/mod.rs: what was copied is flushed, and
-- counted by what landed.
use mtpx.Base.{
  ℕ, ◌≡◌, refl, ap, sym, subst, ◌∙◌, List, length, Option, some, Result, ok, err, arith,
}
use mtpx.Partial.{Fingerprint}
use mtpx.Error.{Error, IoError}
use mtpx.Local.Files.{Files, Bytes}
use mtpx.Local.Io.{State}
use mtpx.Local.Laws.{Disk, IsFileSystem, Measures}
use mtpx.Local.Triples.{After, IsSafe}
use mtpx.Local.Vouching.{IsSound, some-injective}
use mtpx.Local.Preparing.{IsOpen}
use mtpx.Local.Filling.{Delivers, IsStopped, flush-IsOpen, flush-IsStopped}
use mtpx.Local.Pumping.{Copied, copy_chunks-Copies}
use mtpx.Local.Writer.{PartWriter, counted, flush, copy_chunks, landed, least, pump, and}

-- After pumping: everything that was accepted is on disk and counted, or the write stopped.
abbrev pub Pumped :
    {Other : Type 0}
    → Bytes
    → Option Bytes
    → Result (Unit {0}) (Error Other)
    → PartWriter
    → Disk
    → Type 0
Pumped content before (ok u) w d =
    (rest : Bytes) × IsOpen content before w rest d × (d.part ≡ some d.accepted)
Pumped content before (err e) w d = IsStopped content before w d

least-of_full :
    (d d' : Disk) (r : Result ℕ IoError)
    → Measures d r d'
    → d.part ≡ some d.accepted
    → least (length d.accepted) r ≡ length d.accepted
least-of_full d d' (ok n) (held, at, size, e) full =
    let same : length held ≡ length d.accepted = ap length (some-injective (sym at ∙ full)) in
    omega (arith, size, same)
least-of_full d d' (err x) e full = refl

Measures-same : (d d' : Disk) (r : Result ℕ IoError) → Measures d r d' → d' ≡ d
Measures-same d d' (ok n) (held, at, size, e) = e
Measures-same d d' (err x) e = e

module _ {Other : Type 0} {fs : Files} (laws : IsFileSystem fs) (content : Bytes)
    (fingerprint : Fingerprint) (before : Option Bytes) where
  open laws use {disk}

  abbrev Pumps : (Result (Unit {0}) (Error Other) × PartWriter) × State Other fs → Type 0
  Pumps ((r, w'), s') =
      IsSafe laws (IsSound laws content fingerprint before) s'
      × Pumped content before r w' (disk s'.world)

  -- Measuring changes nothing.
  landed-Safe :
      (w : PartWriter) (s : State Other fs)
      → IsSafe laws (IsSound laws content fingerprint before) s
      → IsSafe laws (IsSound laws content fingerprint before) (landed Other fs w s).1
        × (disk ((landed Other fs w s).1).world ≡ disk s.world)
  unfolding landed
  landed-Safe w s safe =
      let same =
        Measures-same (disk s.world) _ (fs.handle_len s.world).0 (laws.handle_len_law s.world) in
      ((subst (IsSound laws content fingerprint before) (sym same) safe.0, safe), same)

  landed-full :
      (w : PartWriter) (s : State Other fs)
      → w.sidecar.bytes ≡ length ((disk s.world).accepted)
      → (disk s.world).part ≡ some ((disk s.world).accepted)
      → (landed Other fs w s).0 ≡ length ((disk s.world).accepted)
  unfolding landed
  landed-full w s count full =
      ap (λ n. least n (fs.handle_len s.world).0) count
      ∙ least-of_full (disk s.world) _ (fs.handle_len s.world).0 (laws.handle_len_law s.world) full

  stop_counting :
      (w : PartWriter) (r : Result (Unit {0}) (Error Other)) (e : Error Other) (s : State Other fs)
      → IsSafe laws (IsSound laws content fingerprint before) s
      → IsStopped content before w (disk s.world)
      → let (bytes, s') = landed Other fs w s in Pumps ((err e, counted w bytes), s')
  stop_counting w r e s safe p =
      let (safe', same) = landed-Safe w s safe in
      (
        safe',
        subst (IsStopped content before (counted w (landed Other fs w s).0)) (sym same)
            (record { target = p.target; way = p.way }),
      )

  count_all :
      (w : PartWriter) (rest : Bytes) (s : State Other fs)
      → IsSafe laws (IsSound laws content fingerprint before) s
      → IsOpen content before w rest (disk s.world)
      → (disk s.world).part ≡ some ((disk s.world).accepted)
      → let (bytes, s') = landed Other fs w s in Pumps ((ok tt, counted w bytes), s')
  count_all w rest s safe p full =
      let (safe', same) = landed-Safe w s safe in
      let w' = counted w (landed Other fs w s).0 in
      let (q, full') =
        subst (λ d. IsOpen content before w' rest d × (d.part ≡ some d.accepted)) (sym same)
          (
            record {
              target = p.target;
              position = p.position;
              counted = landed-full w s p.counted full;
              landed = p.landed;
              way = p.way;
            },
            full,
          ) in
      (safe', (rest, q, full'))

  pub pump-Pumps :
      (input : List (Result Bytes (Error Other))) (w : PartWriter) (rest : Bytes)
      (s : State Other fs)
      → Delivers input rest
      → IsOpen content before w rest (disk s.world)
      → IsSafe laws (IsSound laws content fingerprint before) s
      → Pumps (pump Other fs input w s)
  unfolding pump
  pump-Pumps input w rest s h p safe =
      let ((copied, w1), s1) = copy_chunks Other fs input w s in
      let (safe1, same, after) =
        copy_chunks-Copies laws content fingerprint before input w rest s h p safe in
      go copied w1 s1 safe1 after
    where
      flushed_after :
          (w1 : PartWriter) (rest' : Bytes) (r : Result (Unit {0}) (Error Other))
          (s2 : State Other fs)
          → IsSafe laws (IsSound laws content fingerprint before) s2
          → After
              (λ u d. IsOpen content before w1 rest' d × (d.part ≡ some d.accepted))
              (IsStopped content before w1)
              r
              (disk s2.world)
          → let (bytes, s3) = landed Other fs w1 s2 in
            Pumps ((and Other fs (ok tt) r, counted w1 bytes), s3)
      flushed_after w1 rest' (ok u) s2 safe2 (q, full) = count_all w1 rest' s2 safe2 q full
      flushed_after w1 rest' (err e) s2 safe2 q = stop_counting w1 (err e) e s2 safe2 q

      stopped_after :
          (w1 : PartWriter) (e : Error Other) (r : Result (Unit {0}) (Error Other))
          (s2 : State Other fs)
          → IsSafe laws (IsSound laws content fingerprint before) s2
          → After (λ u. IsStopped content before w1) (IsStopped content before w1) r (disk s2.world)
          → let (bytes, s3) = landed Other fs w1 s2 in Pumps ((err e, counted w1 bytes), s3)
      stopped_after w1 e (ok u) s2 safe2 q = stop_counting w1 (ok u) e s2 safe2 q
      stopped_after w1 e (err x) s2 safe2 q = stop_counting w1 (err x) e s2 safe2 q

      go :
          (copied : Result (Unit {0}) (Error Other)) (w1 : PartWriter) (s1 : State Other fs)
          → IsSafe laws (IsSound laws content fingerprint before) s1
          → Copied content before copied w1 (disk s1.world)
          → let (flushed, s2) = flush Other fs s1 in
            let (bytes, s3) = landed Other fs w1 s2 in
            Pumps ((and Other fs copied flushed, counted w1 bytes), s3)
      go (ok u) w1 s1 safe1 (rest', q) =
          let (safe2, after) =
            (flush-IsOpen laws content fingerprint before w1 rest').run s1 q safe1 in
          flushed_after w1 rest' (flush Other fs s1).0 (flush Other fs s1).1 safe2 after
      go (err e) w1 s1 safe1 q =
          let (safe2, after) =
            (flush-IsStopped laws content fingerprint before w1).run s1 q safe1 in
          stopped_after w1 e (flush Other fs s1).0 (flush Other fs s1).1 safe2 after
