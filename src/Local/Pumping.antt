-- ===== src/Local/Pumping.antt =====
-- Pumping a stream into the part, for crates/mtpx-core/src/internal/local/mod.rs.
use mtpx.Base.{
  ◌+◌, ◌≡◌, inl, inr, refl, ap, sym, subst, ◌∙◌, Bool, true, false, ◌&&◌, List, [], ◌∷◌, ◌++◌,
  length, length-append, append_assoc, Option, some, leb, ◌-◌, Result, ok, err, arith,
}
use mtpx.Std.Text.{codes}
use mtpx.Partial.{Fingerprint}
use mtpx.Error.{Error}
use mtpx.Local.Files.{Files, Bytes, part}
use mtpx.Local.Io.{State, io, ◌>>◌}
use mtpx.Local.Laws.{Disk, IsFileSystem, Appends}
use mtpx.Local.Triples.{After, IsSafe, Triple, bind-Triple, law-Triple, weaken-Triple}
use mtpx.Local.Vouching.{IsSound}
use mtpx.Local.Preparing.{IsOpen}
use mtpx.Local.Filling.{
  Delivers, IsStopped, IsOpen-IsStopped, IsStopped-IsSound, write_sidecar-keeps, flush-IsOpen,
}
use mtpx.Local.Writer.{
  PartWriter, counted, path_of, write_sidecar, flush, checkpoint, checkpoint_if_due, copy_chunks,
  checkpoint_bytes,
}

-- After a method: the write is open, or it stopped.
abbrev pub Kept :
    {Other : Type 0}
    → Bytes
    → Option Bytes
    → Bytes
    → Result (Unit {0}) (Error Other)
    → PartWriter
    → Disk
    → Type 0
Kept content before rest (ok u) w d = IsOpen content before w rest d
Kept content before rest (err e) w d = IsStopped content before w d

-- The same, with some of the stream left.
abbrev pub Copied :
    {Other : Type 0}
    → Bytes
    → Option Bytes
    → Result (Unit {0}) (Error Other)
    → PartWriter
    → Disk
    → Type 0
Copied content before (ok u) w d = (rest : Bytes) × IsOpen content before w rest d
Copied content before (err e) w d = IsStopped content before w d

module _ (content : Bytes) (before : Option Bytes) where
  -- An open write that goes on from the planned offset.
  abbrev IsGoing : PartWriter → Bytes → Disk → Type 0
  IsGoing w rest d = IsOpen content before w rest d × (w.resumable ≡ true)

  IsGoing-framed :
      (w : PartWriter) (rest : Bytes) (d : Disk) (t r : Option Bytes)
      → IsGoing w rest d
      → IsGoing w rest (record d { tmp = t; sidecar = r })
  IsGoing-framed w rest d t r (h, on) = (
    record {
      target = h.target;
      position = h.position;
      counted = h.counted;
      landed = h.landed;
      way = elim h.way [ inl go_on ↦ inl go_on | inr (off, bare, less) ↦ absurd (cc (on, off)) ];
    },
    on,
  )

module _ {Other : Type 0} {fs : Files} (laws : IsFileSystem fs) (content : Bytes)
    (fingerprint : Fingerprint) (before : Option Bytes) where
  open laws use {disk}

  -- A chunk at the end of the part.
  append_chunk :
      (w : PartWriter) (chunk rest : Bytes)
      → Triple {Other = Other} laws
          (IsSound laws content fingerprint before)
          (IsOpen content before w (chunk ++ rest))
          (io (codes "write") (path_of fs part) (fs.write_all chunk))
          (λ u. IsOpen content before (counted w (w.sidecar.bytes + length chunk)) rest)
          (IsStopped content before w)
  append_chunk w chunk rest =
      law-Triple laws (IsSound laws content fingerprint before) _ _ (fs.write_all chunk)
        (Appends chunk) (λ x p. laws.write_all_law chunk x p.position)
        (λ u d d' i p (held, pre, e).
          let more = length-append d.accepted chunk in
          let w' = counted w (w.sidecar.bytes + length chunk) in
          let q : IsOpen content before w' rest (record d {
            part = some held;
            accepted = d.accepted ++ chunk;
            position = length (d.accepted ++ chunk);
          }) =
            record {
              target = p.target;
              position = refl;
              counted = omega (arith, p.counted, more);
              landed = (held, refl, pre);
              way = elim p.way [
                | inl (on, whole) ↦ inl (on, append_assoc d.accepted chunk rest ∙ whole)
                | inr (off, bare, less) ↦
                    inr (off, bare, omega (arith, less, more, length-append chunk rest))
              ];
            } in
          let stopped = IsOpen-IsStopped content before w' rest _ q in
          subst (λ x. IsSound laws content fingerprint before x × IsOpen content before w' rest x)
            (sym e) (IsStopped-IsSound laws content fingerprint before w' _ stopped, q))
        (λ x d d' i p (given, (end, cut), (held, pre, e)).
          let q : IsStopped content before w (record d {
            part = some held;
            accepted = d.accepted ++ given;
            position = length (d.accepted ++ given);
          }) =
            record {
              target = p.target;
              way = elim p.way [
                | inl (on, whole) ↦ inl (
                  on,
                  (
                    held,
                    refl,
                    pre,
                    (
                      end ++ rest,
                      sym whole
                          ∙ ap (λ l. d.accepted ++ (l ++ rest)) cut
                          ∙ ap (λ l. d.accepted ++ l) (append_assoc given end rest)
                          ∙ sym (append_assoc d.accepted given (end ++ rest)),
                    ),
                  ),
                )
                | inr (off, bare, less) ↦ inr (off, bare)
              ];
            } in
          subst (λ x. IsSound laws content fingerprint before x × IsStopped content before w x)
            (sym e) (IsStopped-IsSound laws content fingerprint before w _ q, q))

  record_flushed :
      (w : PartWriter) (rest : Bytes)
      → w.resumable ≡ true
      → Triple laws
          (IsSound laws content fingerprint before)
          (IsOpen content before w rest)
          (flush Other fs >> write_sidecar Other fs w.sidecar)
          (λ u. IsOpen content before w rest)
          (IsStopped content before w)
  record_flushed w rest on =
      bind-Triple laws (IsSound laws content fingerprint before)
        (flush-IsOpen laws content fingerprint before w rest)
        (λ u.
          weaken-Triple laws (IsSound laws content fingerprint before) (λ d i (p, full). (p, on))
            (λ u d i p. p.0) (λ d i p. IsOpen-IsStopped content before w rest d p.0)
            (write_sidecar-keeps laws content fingerprint before w.sidecar
              {P = λ d. IsOpen content before w rest d × (w.resumable ≡ true)}
              (λ d p.
                IsStopped-IsSound laws content fingerprint before w d
                  (IsOpen-IsStopped content before w rest d p.0))
              (IsGoing-framed content before w rest)))

  -- A method that keeps the write open or stops it.
  abbrev Keeps :
      PartWriter → Bytes → (Result (Unit {0}) (Error Other) × PartWriter) × State Other fs → Type 0
  Keeps w rest ((r, w'), s') =
      IsSafe laws (IsSound laws content fingerprint before) s'
      × (w'.resumable ≡ w.resumable)
      × Kept content before rest r w' (disk s'.world)

  checkpoint-Keeps :
      (w : PartWriter) (rest : Bytes) (s : State Other fs)
      → w.resumable ≡ true
      → IsOpen content before w rest (disk s.world)
      → IsSafe laws (IsSound laws content fingerprint before) s
      → Keeps w rest (checkpoint Other fs w s)
  unfolding checkpoint
  checkpoint-Keeps w rest s on p safe =
      let (safe', after) = (record_flushed w rest on).run s p safe in
      go ((flush Other fs >> write_sidecar Other fs w.sidecar) s).0
        ((flush Other fs >> write_sidecar Other fs w.sidecar) s).1 safe' after
    where
      go :
          (r : Result (Unit {0}) (Error Other)) (s' : State Other fs)
          → IsSafe laws (IsSound laws content fingerprint before) s'
          → After (λ u. IsOpen content before w rest) (IsStopped content before w) r (disk s'.world)
          → Keeps w rest (elim r [
            | ok u ↦ ((ok tt, record w { checkpointed = w.sidecar.bytes }), s')
            | err e ↦ ((err e, w), s')
          ])
      go (ok u) s' safe' p = (
        safe',
        refl,
        record {
          target = p.target;
          position = p.position;
          counted = p.counted;
          landed = p.landed;
          way = p.way;
        },
      )
      go (err e) s' safe' p = (safe', refl, p)

  checkpoint_if_due-Keeps :
      (w : PartWriter) (rest : Bytes) (s : State Other fs)
      → IsOpen content before w rest (disk s.world)
      → IsSafe laws (IsSound laws content fingerprint before) s
      → Keeps w rest (checkpoint_if_due Other fs w s)
  unfolding checkpoint_if_due
  checkpoint_if_due-Keeps w rest s p safe =
      go (w.resumable && leb checkpoint_bytes (w.sidecar.bytes - w.checkpointed)) refl
    where
      go :
          (due : Bool)
          → (w.resumable && leb checkpoint_bytes (w.sidecar.bytes - w.checkpointed)) ≡ due
          → Keeps w rest (elim due [ true ↦ checkpoint Other fs w s | false ↦ ((ok tt, w), s) ])
      go true h = checkpoint-Keeps w rest s (ground (arith, h)) p safe
      go false h = (safe, refl, p)

  -- What copying leaves.
  abbrev pub Copies :
      PartWriter → (Result (Unit {0}) (Error Other) × PartWriter) × State Other fs → Type 0
  Copies w ((r, w'), s') =
      IsSafe laws (IsSound laws content fingerprint before) s'
      × (w'.resumable ≡ w.resumable)
      × Copied content before r w' (disk s'.world)

  pub copy_chunks-Copies :
      (input : List (Result Bytes (Error Other))) (w : PartWriter) (rest : Bytes)
      (s : State Other fs)
      → Delivers input rest
      → IsOpen content before w rest (disk s.world)
      → IsSafe laws (IsSound laws content fingerprint before) s
      → Copies w (copy_chunks Other fs input w s)
  unfolding copy_chunks
  copy_chunks-Copies [] w rest s h p safe = (safe, refl, (rest, p))
  copy_chunks-Copies (err e ∷ input) w rest s h p safe =
      (safe, refl, IsOpen-IsStopped content before w rest (disk s.world) p)
  copy_chunks-Copies (ok chunk ∷ input) w rest s (rest', split, h) p safe =
      let write = io (codes "write") (path_of fs part) (fs.write_all chunk) in
      let (safe1, after) =
        (append_chunk w chunk rest').run s
          (subst (λ l. IsOpen content before w l (disk s.world)) split p) safe in
      go (λ w2 s2 q safe2. copy_chunks-Copies input w2 rest' s2 h q safe2) (write s).0 (write s).1
        safe1 after
    where
      -- What is known of the rest of the stream.
      Rest : Type 0
      Rest =
          (w2 : PartWriter) (s2 : State Other fs)
          → IsOpen content before w2 rest' (disk s2.world)
          → IsSafe laws (IsSound laws content fingerprint before) s2
          → Copies w2 (copy_chunks Other fs input w2 s2)

      w1 : PartWriter
      w1 = counted w (w.sidecar.bytes + length chunk)

      then_copy :
          Rest
          → (r : Result (Unit {0}) (Error Other)) (w2 : PartWriter) (s2 : State Other fs)
          → Keeps w1 rest' ((r, w2), s2)
          → Copies w
              (elim r [ err e ↦ ((err e, w2), s2) | ok u ↦ copy_chunks Other fs input w2 s2 ])
      then_copy ih (ok u) w2 s2 (safe2, same, q) =
          let (safe3, same3, copied) = ih w2 s2 q safe2 in (safe3, same3 ∙ same, copied)
      then_copy ih (err e) w2 s2 (safe2, same, q) = (safe2, same, q)

      go :
          Rest
          → (r : Result (Unit {0}) (Error Other)) (s1 : State Other fs)
          → IsSafe laws (IsSound laws content fingerprint before) s1
          → After
              (λ u. IsOpen content before w1 rest')
              (IsStopped content before w)
              r
              (disk s1.world)
          → Copies w (elim r [
            | err e ↦ ((err e, w), s1)
            | ok u ↦
                let ((kept, w2), s2) = checkpoint_if_due Other fs w1 s1 in
                elim kept [ err e ↦ ((err e, w2), s2) | ok v ↦ copy_chunks Other fs input w2 s2 ]
          ])
      go ih (ok u) s1 safe1 q =
          let ((kept, w2), s2) = checkpoint_if_due Other fs w1 s1 in
          then_copy ih kept w2 s2 (checkpoint_if_due-Keeps w1 rest' s1 q safe1)
      go ih (err e) s1 safe1 q = (safe1, refl, q)
