-- ===== src/Local/Whole.antt =====
-- A whole write, and the next one after it was cut short, for
-- crates/mtpx-core/src/internal/local/mod.rs.
use mtpx.Base.{
  ◌≤◌, ◌≡◌, ◌⊎◌, inl, inr, refl, ap, sym, subst, ◌∙◌, true, List, [], ◌∷◌, ◌++◌, length, take,
  length-append, append-nil, nat_eq, Bool-cases, Option, some, Result, ok, err, Elem, All-elem,
  arith,
}
use mtpx.Partial.{Sidecar, Fingerprint, Identity, is_valid_for, new_sidecar}
use mtpx.Endpoint.{WriteRequest}
use mtpx.Error.{Error}
use mtpx.Local.Files.{Files, Bytes}
use mtpx.Local.Io.{State}
use mtpx.Local.Laws.{Disk, IsFileSystem}
use mtpx.Local.Triples.{After, IsSafe, Triple, bind-Triple}
use mtpx.Local.Vouching.{drop_bytes, IsSound, some-injective}
use mtpx.Local.Opening.{Untouched, IsFresh}
use mtpx.Local.Preparing.{IsOpen, refuse_directory-IsFresh, open_writer-IsOpen}
use mtpx.Local.Filling.{Delivers, IsOpen-IsStopped}
use mtpx.Local.Flushing.{Pumped, pump-Pumps}
use mtpx.Local.Written.{IsDone, IsWhole, stop-Untouched, finish-IsDone}
use mtpx.Local.Writer.{PartWriter, sidecar_for, expect_length, pump, and, fill, write, finish, stop}

expect_length-cases :
    {Other : Type 0} (w : PartWriter) (request : WriteRequest)
    → ((expect_length {Other = Other} w request ≡ ok tt)
        × (w.sidecar.bytes ≡ request.expected_size))
      ⊎ ((e : Error Other) × (expect_length w request ≡ err e))
unfolding expect_length
expect_length-cases w request = elim (Bool-cases (nat_eq w.sidecar.bytes request.expected_size)) [
  | inl same ↦ inl (rw same refl, ground (arith, same))
  | inr other ↦
      inr (Error.length_mismatch request.path request.expected_size w.sidecar.bytes, rw other refl)
]

-- An open write that has as many bytes as the file has them all.
IsOpen-IsWhole :
    (content : Bytes) (before : Option Bytes) (w : PartWriter) (rest : Bytes) (d : Disk)
    → IsOpen content before w rest d
    → d.part ≡ some d.accepted
    → w.sidecar.bytes ≡ length content
    → IsWhole content before d
IsOpen-IsWhole content before w rest d p full size = elim p.way [
  | inl (on, whole) ↦
      let none_left : rest ≡ [] = empty rest (ap length whole) in
      (
        p.target,
        full
            ∙ ap some
                (sym (append-nil d.accepted) ∙ ap (λ l. d.accepted ++ l) (sym none_left) ∙ whole),
      )
  | inr (off, bare, less) ↦ absurd (omega (arith, less, size, p.counted))
]
  where
    empty : (l : Bytes) → length (d.accepted ++ l) ≡ length content → l ≡ []
    empty [] h = refl
    empty (x ∷ xs) h = absurd (omega (arith, h, length-append d.accepted (x ∷ xs), size, p.counted))

module _ {Other : Type 0} {fs : Files} (laws : IsFileSystem fs) (content : Bytes)
    (fingerprint : Fingerprint) (before : Option Bytes) where
  open laws use {disk}

  -- What a write leaves.
  abbrev pub Leaves : Result (Unit {0}) (Error Other) × State Other fs → Type 0
  Leaves (r, s) =
      IsSafe laws (IsSound laws content fingerprint before) s
      × After (λ u. IsDone content) (Untouched before) r (disk s.world)

  fill-Leaves :
      (request : WriteRequest) (input : List (Result Bytes (Error Other))) (w : PartWriter)
      (rest : Bytes)
      → request.expected_size ≡ length content
      → Delivers input rest
      → Triple laws
          (IsSound laws content fingerprint before)
          (IsOpen content before w rest)
          (fill Other fs request input w)
          (λ u. IsDone content)
          (Untouched before)
  unfolding fill
  fill-Leaves request input w rest size h = record {
    run = λ s p safe.
        let ((pumped, w'), s') = pump Other fs input w s in
        let (safe', after) = pump-Pumps laws content fingerprint before input w rest s h p safe in
        go pumped w' s' safe' after;
  }
    where
      measured :
          (w' : PartWriter) (rest' : Bytes) (s' : State Other fs)
          (r : Result (Unit {0}) (Error Other))
          → ((r ≡ ok tt) × (w'.sidecar.bytes ≡ request.expected_size))
            ⊎ ((e : Error Other) × (r ≡ err e))
          → IsSafe laws (IsSound laws content fingerprint before) s'
          → IsOpen content before w' rest' (disk s'.world)
          → (disk s'.world).part ≡ some ((disk s'.world).accepted)
          → Leaves (elim r [
            | ok u ↦ finish Other fs w' request.modified s'
            | err e ↦ stop Other fs w' e s'
          ])
      measured w' rest' s' (ok u) (inl (e, same)) safe p full =
          (finish-IsDone laws content fingerprint before w' request.modified).run s'
            (IsOpen-IsWhole content before w' rest' (disk s'.world) p full (same ∙ size)) safe
      measured w' rest' s' (err x) c safe p full =
          (stop-Untouched laws content fingerprint before w' x).run s'
            (IsOpen-IsStopped content before w' rest' (disk s'.world) p) safe
      measured w' rest' s' (ok u) (inr (x, e)) safe p full = absurd (cc e)

      go :
          (pumped : Result (Unit {0}) (Error Other)) (w' : PartWriter) (s' : State Other fs)
          → IsSafe laws (IsSound laws content fingerprint before) s'
          → Pumped content before pumped w' (disk s'.world)
          → Leaves (elim (and Other fs pumped (expect_length w' request)) [
            | ok u ↦ finish Other fs w' request.modified s'
            | err e ↦ stop Other fs w' e s'
          ])
      go (ok u) w' s' safe' (rest', p, full) =
          measured w' rest' s' (expect_length w' request) (expect_length-cases w' request) safe' p
            full
      go (err e) w' s' safe' p =
          (stop-Untouched laws content fingerprint before w' e).run s' p safe'

  -- A write of a file of the expected size, from an offset within it, of which the stream brings what
  -- lies behind the offset, to a disk that is sound and was in every earlier world, and whose part
  -- starts as the file does up to that offset where it is that long. Sound is a disk where a record of
  -- this version counts only bytes that the part has right, and the final path holds what it held or
  -- the whole file. The disk is sound in every world that the write passes. If the write succeeds, the
  -- final path holds the whole file and the part is gone; if it fails, it holds what it held.
  pub write-Leaves :
      (peer : Identity) (request : WriteRequest) (input : List (Result Bytes (Error Other)))
      (s : State Other fs)
      → request.expected_size ≡ length content
      → request.resume_from ≤ request.expected_size
      → Delivers input (drop_bytes request.resume_from content)
      → IsFresh content before request.resume_from (disk s.world)
      → IsSafe laws (IsSound laws content fingerprint before) s
      → Leaves (write Other fs peer request input s)
  unfolding write sidecar_for new_sidecar
  write-Leaves peer request input s size fits h fresh safe =
      (bind-Triple laws (IsSound laws content fingerprint before)
          (refuse_directory-IsFresh laws content fingerprint before request.resume_from)
          (λ u.
            bind-Triple laws (IsSound laws content fingerprint before)
              (open_writer-IsOpen laws content fingerprint before (sidecar_for peer request)
                (omega (arith, fits, size)))
              (λ w.
                fill-Leaves request input w (drop_bytes request.resume_from content) size h))).run
        s fresh safe

-- The write of the next run, after one under the same conditions was cut short in any world that it passed, its last
-- included, before the final path was replaced. If a record is found there that is for this version
-- of the file and valid for the part, then a write that goes on from the bytes that it counts, of
-- which the stream brings the rest, leaves what the first would have: the whole file if it succeeds,
-- and otherwise what was there before.
pub write-Leaves_after_cut :
    {Other : Type 0} {fs : Files} (laws : IsFileSystem fs) (content : Bytes)
    (fingerprint : Fingerprint) (before : Option Bytes) (peer : Identity) (request : WriteRequest)
    (input : List (Result Bytes (Error Other))) (s : State Other fs) (cut : fs.World) (json : Bytes)
    (found : Sidecar) (held : Bytes) (again : List (Result Bytes (Error Other)))
    → request.expected_size ≡ length content
    → request.resume_from ≤ request.expected_size
    → Delivers input (drop_bytes request.resume_from content)
    → IsFresh content before request.resume_from (laws.disk s.world)
    → IsSafe laws (IsSound laws content fingerprint before) s
    → Elem cut (let (r, s') = write Other fs peer request input s in s'.world ∷ s'.past)
    → (laws.disk cut).target ≡ before
    → (laws.disk cut).sidecar ≡ some json
    → laws.from_json json ≡ some found
    → found.fingerprint ≡ fingerprint
    → (laws.disk cut).part ≡ some held
    → is_valid_for found peer (length held) ≡ true
    → found.bytes ≤ request.expected_size
    → Delivers again (drop_bytes found.bytes content)
    → Leaves laws content fingerprint before (
        write Other fs peer
          (record request { resume_from = found.bytes })
          again
          (record { world = cut; past = [] }))
unfolding is_valid_for
write-Leaves_after_cut {Other = Other} {fs = fs} laws content fingerprint before peer request input
      s cut json found held again size fits h fresh safe passed kept rec parsed same at valid fits'
      h' =
    let last : State Other fs = (write Other fs peer request input s).1 in
    let (safe', after) =
      write-Leaves laws content fingerprint before peer request input s size fits h fresh safe in
    let sound =
      All-elem (λ w. IsSound laws content fingerprint before (laws.disk w)) cut
        (last.world ∷ last.past) safe' passed in
    let enough : found.bytes ≤ length held = ground (arith, valid) in
    write-Leaves laws content fingerprint before peer (record request { resume_from = found.bytes })
      again (record { world = cut; past = [] }) size fits' h'
      (record {
        target = kept;
        planned_prefix = λ held' at' long.
            let eq : held ≡ held' = some-injective (sym at ∙ at') in
            subst (λ l. take found.bytes l ≡ take found.bytes content) eq
              (sound.0 json found held rec parsed same at enough);
      })
      (sound, tt)
