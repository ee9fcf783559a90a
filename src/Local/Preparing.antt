-- ===== src/Local/Preparing.antt =====
-- What a write does before the first byte, for crates/mtpx-core/src/internal/local/mod.rs.
use mtpx.Base.{
  ℕ, ◌+◌, ◌≤◌, ◌<◌, ◌≡◌, ◌⊎◌, inl, inr, refl, ap, sym, subst, ◌∙◌, Bool, true, false, [], ◌++◌,
  length, take, length-append, length-take, Option, none, some, nat_eq, leb, Bool-cases, Result, ok,
  err, arith, append-nil,
}
use mtpx.Std.Text.{Str}
use mtpx.Partial.{Sidecar, Fingerprint}
use mtpx.Error.{Error, IoError}
use mtpx.Local.Files.{Files, Bytes, TransferFile, sidecar, tmp}
use mtpx.Local.Io.{is_not_found, probe}
use mtpx.Local.Laws.{Disk, IsFileSystem, IsPrefix, Removes, without}
use mtpx.Local.Triples.{
  After, Triple, bind-Triple, known-Triple, pure-Triple, probe-Triple, same-Triple,
}
use mtpx.Local.Vouching.{drop_bytes, Vouches-no_sidecar, IsSound}
use mtpx.Local.Opening.{
  Untouched, IsFresh, IsCleared, IsOpened, Call, open_part-IsOpened, take-append_drop_bytes,
}
use mtpx.Local.Writer.{
  PartWriter, with_bytes, refuse_directory, not_a_directory, ensure_parent, create_parent,
  remove_if_present, absent_is_fine, remove_sidecar, effective_resume, offset_held,
  drop_record_unless, open_writer,
}

-- An open write: the bytes that were accepted are the start of the file and the stream brings the
-- rest, or the stream brings too little and no record is left.
pub record IsOpen (content : Bytes) (before : Option Bytes) (w : PartWriter) (rest : Bytes)
    (d : Disk) : Type 0 where
  pub target : Untouched before d
  pub position : d.position ≡ length d.accepted
  pub counted : w.sidecar.bytes ≡ length d.accepted
  pub landed : (p : Bytes) × (d.part ≡ some p) × IsPrefix p d.accepted
  pub way :
      ((w.resumable ≡ true) × (d.accepted ++ rest ≡ content))
      ⊎ ((w.resumable ≡ false)
          × (d.sidecar ≡ none)
          × (length d.accepted + length rest < length content))

module _ (Other : Type 0) (fs : Files) where
  not_a_directory-After :
      (P R : Disk → Type 0) (r : Result Bool IoError) (d : Disk)
      → P d
      → R d
      → After (λ u. P) R (not_a_directory Other fs r) d
  not_a_directory-After P R (ok true) d p q = q
  not_a_directory-After P R (ok false) d p q = p
  not_a_directory-After P R (err e) d p q = elim (Bool-cases (is_not_found e.kind)) [
    | inl absent ↦ rw absent p
    | inr other ↦ rw other q
  ]

  offset_held-After :
      (P R : Disk → Type 0) (planned : ℕ) (r : Result ℕ IoError) (d : Disk)
      → P d
      → R d
      → After (λ n x. P x × ((n ≡ 0) ⊎ (n ≡ planned))) R (offset_held Other fs planned r) d
  offset_held-After P R planned (ok n) d p q = elim (Bool-cases (leb planned n)) [
    | inl enough ↦ rw enough (p, inr refl)
    | inr short ↦ rw short (p, inl refl)
  ]
  offset_held-After P R planned (err e) d p q = elim (Bool-cases (is_not_found e.kind)) [
    | inl absent ↦ elim (Bool-cases (leb planned 0)) [
      | inl enough ↦ rw (absent, enough) (p, inr refl)
      | inr short ↦ rw (absent, short) (p, inl refl)
    ]
    | inr other ↦ rw other q
  ]

module _ (content : Bytes) (before : Option Bytes) where
  IsOpened-IsOpen :
      (planned : Sidecar) (n : ℕ) (d : Disk)
      → planned.bytes ≤ length content
      → (n ≡ 0) ⊎ (n ≡ planned.bytes)
      → IsOpened content before planned.bytes n d
      → IsOpen content before
          (record {
            sidecar = with_bytes planned n;
            resumable = nat_eq n planned.bytes;
            checkpointed = n;
          })
          (drop_bytes planned.bytes content)
          d
  IsOpened-IsOpen planned n d fits from p =
      let whole : length (take n content) ≡ n = length-take n content (ground (arith, from)) in
      let size : length d.accepted ≡ n = ap length p.prefix ∙ whole in
      let parts = ap length (take-append_drop_bytes planned.bytes content) in
      let split = length-append (take planned.bytes content) (drop_bytes planned.bytes content) in
      let cut = length-take planned.bytes content fits in
      record {
        target = p.target;
        position = p.position ∙ sym size;
        counted = sym size;
        landed = (d.accepted, p.held, ([], sym (append-nil d.accepted)));
        way = elim (Bool-cases (nat_eq n planned.bytes)) [
          | inl go_on ↦
              let at : n ≡ planned.bytes = ground (arith, go_on) in
              inl (
                go_on,
                ap (λ l. l ++ drop_bytes planned.bytes content)
                      (p.prefix ∙ ap (λ k. take k content) at)
                    ∙ take-append_drop_bytes planned.bytes content,
              )
          | inr again ↦
              inr (again, p.cleared again, ground (arith, from, again, size, parts, split, cut))
        ];
      }

module _ {Other : Type 0} {fs : Files} (laws : IsFileSystem fs) (content : Bytes)
    (fingerprint : Fingerprint) (before : Option Bytes) where
  -- A call that leaves the disk as it is.
  probe_same :
      {A B : Type 0} {P : Disk → Type 0} {Q : B → Disk → Type 0} {R : Disk → Type 0}
      (f : fs.World → Result A IoError × fs.World) (g : Result A IoError → Result B (Error Other))
      → ((w : fs.World) → laws.disk (f w).1 ≡ laws.disk w)
      → ((r : Result A IoError) (d : Disk) → P d → After Q R (g r) d)
      → Triple laws (IsSound laws content fingerprint before) P (probe f g) Q R
  probe_same {P = P} f g law h =
      probe-Triple laws (IsSound laws content fingerprint before) f g (λ d r d'. d' ≡ d)
        (λ w p. law w)
        (λ r d d' i p e.
          (subst (IsSound laws content fingerprint before) (sym e) i, h r d' (subst P (sym e) p)))

  pub refuse_directory-IsFresh :
      (planned : ℕ)
      → Call Other laws content fingerprint before
          (IsFresh content before planned)
          (refuse_directory Other fs)
          (λ u. IsFresh content before planned)
  unfolding refuse_directory
  refuse_directory-IsFresh planned =
      probe_same fs.target_is_dir (not_a_directory Other fs) laws.target_is_dir_law
        (λ r d p. not_a_directory-After Other fs _ _ r d p p.target)

  ensure_parent-IsFresh :
      (planned : ℕ)
      → Call Other laws content fingerprint before
          (IsFresh content before planned)
          (ensure_parent Other fs)
          (λ u. IsFresh content before planned)
  unfolding ensure_parent
  ensure_parent-IsFresh planned = created fs.parent
    where
      created :
          (parent : Option Str)
          → Call Other laws content fingerprint before
              (IsFresh content before planned)
              (create_parent Other fs parent)
              (λ u. IsFresh content before planned)
      created none = pure-Triple laws (IsSound laws content fingerprint before) tt (λ d i p. p)
      created (some parent) =
          same-Triple laws (IsSound laws content fingerprint before) _ _ fs.create_parents
            laws.create_parents_law (λ d p. p.target)

  effective_resume-IsFresh :
      (planned : ℕ)
      → Call Other laws content fingerprint before
          (IsFresh content before planned)
          (effective_resume Other fs planned)
          (λ n d. IsFresh content before planned d × ((n ≡ 0) ⊎ (n ≡ planned)))
  unfolding effective_resume
  effective_resume-IsFresh planned = elim (Bool-cases (nat_eq planned 0)) [
    | inl start ↦
        rw start
          (pure-Triple laws (IsSound laws content fingerprint before) 0 (λ d i p. (p, inl refl)))
    | inr further ↦ rw further (
        probe_same fs.part_len (offset_held Other fs planned) laws.part_len_law
          (λ r d p. offset_held-After Other fs _ _ planned r d p p.target))
  ]

  -- Removing a file of the transfer, or finding it gone.
  pub remove_if_present-gone :
      (file : TransferFile) {P : Disk → Type 0} {Q : Disk → Type 0} {R : Disk → Type 0}
      → ((d : Disk)
          → IsSound laws content fingerprint before d
          → P d
          → IsSound laws content fingerprint before (without file d) × Q (without file d))
      → ((d : Disk) → P d → R d)
      → Triple laws
          (IsSound laws content fingerprint before)
          P
          (remove_if_present Other fs file)
          (λ u. Q)
          R
  unfolding remove_if_present
  remove_if_present-gone file {P = P} {Q = Q} {R = R} gone kept =
      probe-Triple laws (IsSound laws content fingerprint before) (fs.remove file)
        (absent_is_fine Other fs file) (Removes file) (λ w p. laws.remove_law file w) go
    where
      go :
          (r : Result (Unit {0}) IoError) (d d' : Disk)
          → IsSound laws content fingerprint before d
          → P d
          → Removes file d r d'
          → IsSound laws content fingerprint before d'
            × After (λ u. Q) R (absent_is_fine Other fs file r) d'
      go (ok u) d d' i p e =
          subst (λ x. IsSound laws content fingerprint before x × Q x) (sym e) (gone d i p)
      go (err x) d d' i p (e, absent) = elim (Bool-cases (is_not_found x.kind)) [
        | inl absent' ↦
            let same : d' ≡ without file d = e ∙ absent absent' in
            rw absent'
              (subst (λ x. IsSound laws content fingerprint before x × Q x) (sym same) (gone d i p))
        | inr other ↦
            rw other (
              subst (IsSound laws content fingerprint before) (sym e) i,
              subst R (sym e) (kept d p),
            )
      ]

  drop_record-IsCleared :
      (planned n : ℕ)
      → Call Other laws content fingerprint before
          (IsFresh content before planned)
          (drop_record_unless Other fs (nat_eq n planned))
          (λ u. IsCleared content before planned n)
  unfolding drop_record_unless remove_sidecar
  drop_record-IsCleared planned n = elim (Bool-cases (nat_eq n planned)) [
    | inl go_on ↦ rw go_on (
        pure-Triple laws (IsSound laws content fingerprint before) tt
          (λ d i p. record { fresh = p; cleared = λ h. cc (h, go_on) }))
    | inr again ↦ rw again (
        bind-Triple laws (IsSound laws content fingerprint before)
          {Q = λ u. IsFresh content before planned}
          (remove_if_present-gone tmp
            (λ d i p. (i, record { target = p.target; planned_prefix = p.planned_prefix }))
            (λ d p. p.target))
          (λ u.
            remove_if_present-gone sidecar
              (λ d i p. (
                (Vouches-no_sidecar laws content fingerprint before (without sidecar d) refl, i.1),
                record {
                  fresh = record { target = p.target; planned_prefix = p.planned_prefix };
                  cleared = λ h. refl;
                },
              ))
              (λ d p. p.target)))
  ]

  -- Opening a write, from a fresh disk.
  pub open_writer-IsOpen :
      (planned : Sidecar)
      → planned.bytes ≤ length content
      → Call Other laws content fingerprint before
          (IsFresh content before planned.bytes)
          (open_writer Other fs planned)
          (λ w. IsOpen content before w (drop_bytes planned.bytes content))
  unfolding open_writer
  open_writer-IsOpen planned fits =
      bind-Triple laws (IsSound laws content fingerprint before)
        (ensure_parent-IsFresh planned.bytes)
        (λ u.
          bind-Triple laws (IsSound laws content fingerprint before)
            (effective_resume-IsFresh planned.bytes)
            (λ n. known-Triple laws (IsSound laws content fingerprint before) (λ from.
              bind-Triple laws (IsSound laws content fingerprint before)
                (drop_record-IsCleared planned.bytes n)
                (λ u.
                  bind-Triple laws (IsSound laws content fingerprint before)
                    (open_part-IsOpened laws content fingerprint before planned.bytes n from)
                    (λ u.
                      pure-Triple laws (IsSound laws content fingerprint before) _
                        (λ d i p. IsOpened-IsOpen content before planned n d fits from p))))))
