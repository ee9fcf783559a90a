-- ===== src/Local/Filling.antt =====
-- Writing the stream to the part, for crates/mtpx-core/src/internal/local/mod.rs.
use mtpx.Base.{
  ◌≡◌, ◌⊎◌, inl, inr, refl, sym, subst, true, false, List, [], ◌∷◌, ◌++◌, append-nil, Option, none,
  some, Result, ok, err,
}
use mtpx.Partial.{Sidecar, Fingerprint}
use mtpx.Error.{Error, IoError}
use mtpx.Local.Files.{Files, Bytes}
use mtpx.Local.Laws.{Disk, IsFileSystem, IsPrefix, Flushes, WritesTmp}
use mtpx.Local.Triples.{Triple, bind-Triple, raise-Triple, law-Triple, changes-Triple}
use mtpx.Local.Vouching.{IsPrefix-trans, Vouches-prefix, Vouches-no_sidecar, IsSound}
use mtpx.Local.Opening.{Untouched}
use mtpx.Local.Preparing.{IsOpen}
use mtpx.Local.Writer.{PartWriter, write_json, write_sidecar, flush}

-- The stream brings the start of what is left, up to an error or its end.
abbrev pub Delivers : {Other : Type 0} → List (Result Bytes (Error Other)) → Bytes → Type 0
Delivers [] rest = Unit
Delivers (err e ∷ input) rest = Unit
Delivers (ok chunk ∷ input) rest = (rest' : Bytes) × (rest ≡ chunk ++ rest') × Delivers input rest'

-- A write that stopped: what the part was given is the start of the file, or no record is left.
pub record IsStopped (content : Bytes) (before : Option Bytes) (w : PartWriter) (d : Disk)
    : Type 0 where
  pub target : Untouched before d
  pub way :
      ((w.resumable ≡ true)
        × ((p : Bytes) × (d.part ≡ some p) × IsPrefix p d.accepted × IsPrefix d.accepted content))
      ⊎ ((w.resumable ≡ false) × (d.sidecar ≡ none))

module _ (content : Bytes) (before : Option Bytes) where
  pub IsOpen-IsStopped :
      (w : PartWriter) (rest : Bytes) (d : Disk)
      → IsOpen content before w rest d
      → IsStopped content before w d
  IsOpen-IsStopped w rest d h = record {
    target = h.target;
    way = elim h.way [
      | inl (on, whole) ↦ let (p, at, pre) = h.landed in inl (on, (p, at, pre, (rest, sym whole)))
      | inr (off, bare, less) ↦ inr (off, bare)
    ];
  }

module _ {fs : Files} (laws : IsFileSystem fs) (content : Bytes) (fingerprint : Fingerprint)
    (before : Option Bytes) where
  pub IsStopped-IsSound :
      (w : PartWriter) (d : Disk)
      → IsStopped content before w d
      → IsSound laws content fingerprint before d
  IsStopped-IsSound w d h = (
    elim h.way [
      | inl (on, (p, at, pre, whole)) ↦
          Vouches-prefix laws content fingerprint before d p at
            (IsPrefix-trans p d.accepted content pre whole)
      | inr (off, bare) ↦ Vouches-no_sidecar laws content fingerprint before d bare
    ],
    inl h.target,
  )

module _ {Other : Type 0} {fs : Files} (laws : IsFileSystem fs) (content : Bytes)
    (fingerprint : Fingerprint) (before : Option Bytes) where
  -- A record is replaced where it may say anything.
  pub write_sidecar-keeps :
      (s : Sidecar) {P : Disk → Type 0}
      → ((d : Disk) → P d → IsSound laws content fingerprint before d)
      → ((d : Disk) (t r : Option Bytes) → P d → P (record d { tmp = t; sidecar = r }))
      → Triple laws
          (IsSound laws content fingerprint before)
          P
          (write_sidecar Other fs s)
          (λ u. P)
          P
  unfolding write_sidecar
  write_sidecar-keeps s {P = P} sound framed = go (fs.to_json s)
    where
      go :
          (json : Result Bytes IoError)
          → Triple laws
              (IsSound laws content fingerprint before)
              P
              (write_json Other fs json)
              (λ u. P)
              P
      go (err e) = raise-Triple laws (IsSound laws content fingerprint before) _ (λ d i p. p)
      go (ok json) =
          bind-Triple laws (IsSound laws content fingerprint before) {Q = λ u. P}
            (law-Triple laws (IsSound laws content fingerprint before) _ _ (fs.write_tmp json)
              (WritesTmp json) (λ w p. laws.write_tmp_law json w)
              (λ u d d' i p e.
                let q = framed d (some json) d.sidecar p in
                subst (λ x. IsSound laws content fingerprint before x × P x) (sym e) (sound _ q, q))
              (λ x d d' i p (left, e).
                let q = framed d left d.sidecar p in
                subst (λ x. IsSound laws content fingerprint before x × P x) (sym e)
                  (sound _ q, q)))
            (λ u.
              changes-Triple laws (IsSound laws content fingerprint before) _ _ fs.rename_tmp
                (λ d. record d { sidecar = d.tmp; tmp = none }) (λ w p. laws.rename_tmp_law w)
                (λ u d i p. let q = framed d none d.tmp p in (sound _ q, q)) (λ d p. p))

  pub flush-IsOpen :
      (w : PartWriter) (rest : Bytes)
      → Triple laws
          (IsSound laws content fingerprint before)
          (IsOpen content before w rest)
          (flush Other fs)
          (λ u d. IsOpen content before w rest d × (d.part ≡ some d.accepted))
          (IsStopped content before w)
  unfolding flush
  flush-IsOpen w rest =
      law-Triple laws (IsSound laws content fingerprint before) _ _ fs.flush Flushes
        (λ w p. laws.flush_law w)
        (λ u d d' i p e.
          let q : IsOpen content before w rest (record d { part = some d.accepted }) = record {
            target = p.target;
            position = p.position;
            counted = p.counted;
            landed = (d.accepted, refl, ([], sym (append-nil d.accepted)));
            way = p.way;
          } in
          subst
            (λ x.
              IsSound laws content fingerprint before x
              × (IsOpen content before w rest x × (x.part ≡ some x.accepted)))
            (sym e)
            (
              IsStopped-IsSound laws content fingerprint before w _
                  (IsOpen-IsStopped content before w rest _ q),
              (q, refl),
            ))
        (λ x d d' i p (held, pre, e).
          let q : IsOpen content before w rest (record d { part = some held }) = record {
            target = p.target;
            position = p.position;
            counted = p.counted;
            landed = (held, refl, pre);
            way = p.way;
          } in
          let stopped = IsOpen-IsStopped content before w rest _ q in
          subst (λ x. IsSound laws content fingerprint before x × IsStopped content before w x)
            (sym e) (IsStopped-IsSound laws content fingerprint before w _ stopped, stopped))

  pub flush-IsStopped :
      (w : PartWriter)
      → Triple laws
          (IsSound laws content fingerprint before)
          (IsStopped content before w)
          (flush Other fs)
          (λ u. IsStopped content before w)
          (IsStopped content before w)
  unfolding flush
  flush-IsStopped w =
      law-Triple laws (IsSound laws content fingerprint before) _ _ fs.flush Flushes
        (λ w p. laws.flush_law w)
        (λ u d d' i p e. settled d d' d.accepted ([], sym (append-nil d.accepted)) p e)
        (λ x d d' i p (held, pre, e). settled d d' held pre p e)
    where
      settled :
          (d d' : Disk) (held : Bytes)
          → IsPrefix held d.accepted
          → IsStopped content before w d
          → d' ≡ record d { part = some held }
          → IsSound laws content fingerprint before d' × IsStopped content before w d'
      settled d d' held pre p e =
          let q : IsStopped content before w (record d { part = some held }) = record {
            target = p.target;
            way = elim p.way [
              | inl (on, (old, at, pre', whole)) ↦ inl (on, (held, refl, pre, whole))
              | inr (off, bare) ↦ inr (off, bare)
            ];
          } in
          subst (λ x. IsSound laws content fingerprint before x × IsStopped content before w x)
            (sym e) (IsStopped-IsSound laws content fingerprint before w _ q, q)
