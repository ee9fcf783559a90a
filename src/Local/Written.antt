-- ===== src/Local/Written.antt =====
-- What a write leaves, for crates/mtpx-core/src/internal/local/mod.rs: the whole file or what was
-- there before, and at every moment a partial that the next run may go on from.
use mtpx.Base.{
  ◌≡◌, inl, inr, refl, sym, Bool, true, false, [], append-nil, if◌then◌else◌, Option, none, some,
}
use mtpx.Entry.{ModifiedTime, as_system}
use mtpx.Partial.{Sidecar, Fingerprint}
use mtpx.Error.{Error}
use mtpx.Local.Files.{Files, Bytes, TransferFile, part, sidecar, tmp}
use mtpx.Local.Laws.{Disk, IsFileSystem, without}
use mtpx.Local.Triples.{
  Triple, bind-Triple, pure-Triple, raise-Triple, attempt-Triple, catch-Triple, weaken-Triple,
  same-Triple, changes-Triple,
}
use mtpx.Local.Vouching.{Vouches-no_sidecar, Vouches-no_part, Vouches-prefix, IsSound}
use mtpx.Local.Opening.{Untouched}
use mtpx.Local.Preparing.{remove_if_present-gone}
use mtpx.Local.Filling.{IsStopped, IsStopped-IsSound, write_sidecar-keeps}
use mtpx.Local.Writer.{
  PartWriter, remove_if_present, remove_sidecar, remove_partial, keep_partial, discard_partial,
  stop, stamp, sync, commit, finish,
}

-- The final path has the whole file, and the part is gone.
abbrev pub IsDone : Bytes → Disk → Type 0
IsDone content d = (d.target ≡ some content) × (d.part ≡ none)

-- The part has the whole file.
abbrev pub IsWhole : Bytes → Option Bytes → Disk → Type 0
IsWhole content before d = Untouched before d × (d.part ≡ some content)

-- No record is left, and the final path is as before.
abbrev IsBare : Option Bytes → Disk → Type 0
IsBare before d = Untouched before d × (d.sidecar ≡ none)

module _ (content : Bytes) (before : Option Bytes) where
  IsStopped-framed :
      (w : PartWriter) (d : Disk) (t r : Option Bytes)
      → IsStopped content before w d × (w.resumable ≡ true)
      → IsStopped content before w (record d { tmp = t; sidecar = r }) × (w.resumable ≡ true)
  IsStopped-framed w d t r (h, on) = (
    record {
      target = h.target;
      way = elim h.way [ inl kept ↦ inl kept | inr (off, bare) ↦ absurd (cc (on, off)) ];
    },
    on,
  )

module _ {fs : Files} (laws : IsFileSystem fs) (content : Bytes) (fingerprint : Fingerprint)
    (before : Option Bytes) where
  IsWhole-IsSound :
      (d : Disk) → IsWhole content before d → IsSound laws content fingerprint before d
  IsWhole-IsSound d p = (
    Vouches-prefix laws content fingerprint before d content p.1 ([], sym (append-nil content)),
    inl p.0,
  )

module _ {Other : Type 0} {fs : Files} (laws : IsFileSystem fs) (content : Bytes)
    (fingerprint : Fingerprint) (before : Option Bytes) where
  open laws use {disk}

  remove_partial-IsBare :
      Triple laws
        (IsSound laws content fingerprint before)
        (IsBare before)
        (remove_partial Other fs)
        (λ u. IsBare before)
        (IsBare before)
  unfolding remove_partial remove_sidecar
  remove_partial-IsBare =
      bind-Triple laws (IsSound laws content fingerprint before) (gone part (λ d p. p)) (λ u.
        bind-Triple laws (IsSound laws content fingerprint before) (gone tmp (λ d p. p))
          (λ u. gone sidecar (λ d p. (p.0, refl))))
    where
      gone :
          (file : TransferFile)
          → ((d : Disk) → IsBare before d → IsBare before (without file d))
          → Triple {Other = Other} laws
              (IsSound laws content fingerprint before)
              (IsBare before)
              (remove_if_present Other fs file)
              (λ u. IsBare before)
              (IsBare before)
      gone file keeps =
          remove_if_present-gone laws content fingerprint before file
            (λ d i p.
              let q = keeps d p in
              (
                (Vouches-no_sidecar laws content fingerprint before (without file d) q.1, inl q.0),
                q,
              ))
            (λ d p. p)

  keep_partial-Untouched :
      (s : Sidecar) (e : Error Other) {P : Disk → Type 0} {Q : Unit {0} → Disk → Type 0}
      → ((d : Disk) → P d → IsSound laws content fingerprint before d)
      → ((d : Disk) (t r : Option Bytes) → P d → P (record d { tmp = t; sidecar = r }))
      → ((d : Disk) → P d → Untouched before d)
      → Triple laws
          (IsSound laws content fingerprint before)
          P
          (keep_partial Other fs s e)
          Q
          (Untouched before)
  unfolding keep_partial
  keep_partial-Untouched s e {P = P} sound framed target =
      bind-Triple laws (IsSound laws content fingerprint before) {Q = λ u. P}
        (attempt-Triple laws (IsSound laws content fingerprint before)
          (write_sidecar-keeps laws content fingerprint before s sound framed))
        (λ u. raise-Triple laws (IsSound laws content fingerprint before) e (λ d i p. target d p))

  discard_partial-Untouched :
      (e : Error Other) {Q : Unit {0} → Disk → Type 0}
      → Triple laws
          (IsSound laws content fingerprint before)
          (IsBare before)
          (discard_partial Other fs e)
          Q
          (Untouched before)
  unfolding discard_partial
  discard_partial-Untouched e =
      bind-Triple laws (IsSound laws content fingerprint before) {Q = λ u. IsBare before}
        (attempt-Triple laws (IsSound laws content fingerprint before) remove_partial-IsBare)
        (λ u. raise-Triple laws (IsSound laws content fingerprint before) e (λ d i p. p.0))

  pub stop-Untouched :
      (w : PartWriter) (e : Error Other)
      → Triple laws
          (IsSound laws content fingerprint before)
          (IsStopped content before w)
          (stop Other fs w e)
          (λ u. IsDone content)
          (Untouched before)
  unfolding stop
  stop-Untouched w e = go w.resumable refl
    where
      go :
          (b : Bool)
          → w.resumable ≡ b
          → Triple laws
              (IsSound laws content fingerprint before)
              (IsStopped content before w)
              (if b then keep_partial Other fs w.sidecar e else discard_partial Other fs e)
              (λ u. IsDone content)
              (Untouched before)
      go true on =
          weaken-Triple laws (IsSound laws content fingerprint before) (λ d i p. (p, on))
            (λ a d i q. q) (λ d i q. q)
            (keep_partial-Untouched w.sidecar e
              {P = λ d. IsStopped content before w d × (w.resumable ≡ true)}
              (λ d p. IsStopped-IsSound laws content fingerprint before w d p.0)
              (IsStopped-framed content before w) (λ d p. p.0.target))
      go false off =
          weaken-Triple laws (IsSound laws content fingerprint before)
            (λ d i p. (
              p.target,
              elim p.way [ inl (on, kept) ↦ absurd (cc (on, off)) | inr (off', bare) ↦ bare ],
            ))
            (λ a d i q. q) (λ d i q. q) (discard_partial-Untouched e)

  sync-IsWhole :
      (modified : Option ModifiedTime)
      → Triple laws
          (IsSound laws content fingerprint before)
          (IsWhole content before)
          (sync Other fs modified)
          (λ u. IsWhole content before)
          (IsWhole content before)
  unfolding sync
  sync-IsWhole modified =
      bind-Triple laws (IsSound laws content fingerprint before) {Q = λ u. IsWhole content before}
        (stamped modified)
        (λ u.
          same-Triple laws (IsSound laws content fingerprint before) _ _ fs.sync_all
            laws.sync_all_law (λ d p. p))
    where
      stamped :
          (modified : Option ModifiedTime)
          → Triple laws
              (IsSound laws content fingerprint before)
              (IsWhole content before)
              (stamp Other fs modified)
              (λ u. IsWhole content before)
              (IsWhole content before)
      stamped none = pure-Triple laws (IsSound laws content fingerprint before) tt (λ d i p. p)
      stamped (some time) = attempt-Triple laws (IsSound laws content fingerprint before) (
          same-Triple laws (IsSound laws content fingerprint before) _ _
            (fs.set_modified (as_system time)) (laws.set_modified_law (as_system time)) (λ d p. p))

  remove_sidecar-IsDone :
      Triple laws
        (IsSound laws content fingerprint before)
        (IsDone content)
        (remove_sidecar Other fs)
        (λ u. IsDone content)
        (IsDone content)
  unfolding remove_sidecar
  remove_sidecar-IsDone =
      bind-Triple laws (IsSound laws content fingerprint before) (gone tmp (λ d p. p))
        (λ u. gone sidecar (λ d p. p))
    where
      gone :
          (file : TransferFile)
          → ((d : Disk) → IsDone content d → IsDone content (without file d))
          → Triple {Other = Other} laws
              (IsSound laws content fingerprint before)
              (IsDone content)
              (remove_if_present Other fs file)
              (λ u. IsDone content)
              (IsDone content)
      gone file keeps =
          remove_if_present-gone laws content fingerprint before file
            (λ d i p.
              let q = keeps d p in
              ((Vouches-no_part laws content fingerprint before (without file d) q.1, inr q.0), q))
            (λ d p. p)

  commit-IsDone :
      (modified : Option ModifiedTime)
      → Triple laws
          (IsSound laws content fingerprint before)
          (IsWhole content before)
          (commit Other fs modified)
          (λ u. IsDone content)
          (IsWhole content before)
  unfolding commit
  commit-IsDone modified =
      bind-Triple laws (IsSound laws content fingerprint before) (sync-IsWhole modified) (λ u.
        bind-Triple laws (IsSound laws content fingerprint before) {Q = λ u. IsDone content}
          (changes-Triple laws (IsSound laws content fingerprint before) _ _ fs.rename_part
            (λ d. record d { target = d.part; part = none }) (λ w p. laws.rename_part_law w)
            (λ u d i p. (
              (
                Vouches-no_part laws content fingerprint before
                    (record d { target = d.part; part = none }) refl,
                inr p.1,
              ),
              (p.1, refl),
            ))
            (λ d p. p))
          (λ u.
            attempt-Triple laws (IsSound laws content fingerprint before) remove_sidecar-IsDone))

  pub finish-IsDone :
      (w : PartWriter) (modified : Option ModifiedTime)
      → Triple laws
          (IsSound laws content fingerprint before)
          (IsWhole content before)
          (finish Other fs w modified)
          (λ u. IsDone content)
          (Untouched before)
  unfolding finish
  finish-IsDone w modified =
      catch-Triple laws (IsSound laws content fingerprint before) (commit-IsDone modified) (λ e.
        keep_partial-Untouched w.sidecar e (IsWhole-IsSound laws content fingerprint before)
          (λ d t r p. p) (λ d p. p.0))
