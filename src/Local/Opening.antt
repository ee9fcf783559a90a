-- ===== src/Local/Opening.antt =====
-- Opening the part, for crates/mtpx-core/src/internal/local/mod.rs: it holds a prefix of the file, or
-- no record vouches for what will be written to it.
use mtpx.Base.{
  ℕ, zero, suc, ◌≤◌, ◌≡◌, ◌⊎◌, inl, inr, refl, ap, sym, subst, ◌∙◌, false, [], ◌∷◌, ◌++◌, length,
  take, Option, none, some, nat_eq, leb, Bool-cases, arith,
}
use mtpx.Std.Text.{codes}
use mtpx.Partial.{Fingerprint}
use mtpx.Local.Files.{Files, Bytes, part}
use mtpx.Local.Io.{Io, io}
use mtpx.Local.Laws.{Disk, IsFileSystem, IsPrefix, Opens, Measures}
use mtpx.Local.Triples.{Triple, bind-Triple, pure-Triple, raise-Triple, law-Triple, changes-Triple}
use mtpx.Local.Vouching.{drop_bytes, some-injective, Vouches-prefix, IsSound}
use mtpx.Local.Writer.{path_of, ensure_still_holds, open_resumed, open_part}

pub take-append_drop_bytes : (n : ℕ) (xs : Bytes) → take n xs ++ drop_bytes n xs ≡ xs
take-append_drop_bytes zero xs = refl
take-append_drop_bytes (suc n) [] = refl
take-append_drop_bytes (suc n) (x ∷ xs) = ap (◌∷◌ x) (take-append_drop_bytes n xs)

pub take-IsPrefix : (n : ℕ) (content : Bytes) → IsPrefix (take n content) content
take-IsPrefix n content = (drop_bytes n content, sym (take-append_drop_bytes n content))

abbrev pub Untouched : Option Bytes → Disk → Type 0
Untouched before d = d.target ≡ before

module _ (content : Bytes) (before : Option Bytes) (planned : ℕ) where
  -- What a part holds up to the planned offset is the start of the file.
  pub record IsFresh (d : Disk) : Type 0 where
    pub target : Untouched before d
    pub planned_prefix :
        (held : Bytes)
        → d.part ≡ some held
        → planned ≤ length held
        → take planned held ≡ take planned content

  -- A record is left only where the write goes on from the planned offset.
  pub record IsCleared (n : ℕ) (d : Disk) : Type 0 where
    pub fresh : IsFresh d
    pub cleared : nat_eq n planned ≡ false → d.sidecar ≡ none

  -- The part is open, and nothing was written to it.
  record IsHeld (n : ℕ) (d : Disk) : Type 0 where
    clear : IsCleared n d
    held : d.part ≡ some d.accepted

  -- The part holds the first `n` bytes of the file, and the next byte goes behind them.
  pub record IsOpened (n : ℕ) (d : Disk) : Type 0 where
    pub target : Untouched before d
    pub cleared : nat_eq n planned ≡ false → d.sidecar ≡ none
    pub held : d.part ≡ some d.accepted
    pub prefix : d.accepted ≡ take n content
    pub position : d.position ≡ n

  abbrev IsEnough : Disk → Type 0
  IsEnough d = IsHeld planned d × (planned ≤ length d.accepted)

  -- The same, before the part is positioned.
  record IsCut (n : ℕ) (d : Disk) : Type 0 where
    target : Untouched before d
    cleared : nat_eq n planned ≡ false → d.sidecar ≡ none
    held : d.part ≡ some d.accepted
    prefix : d.accepted ≡ take n content

module _ (Other : Type 0) {fs : Files} (laws : IsFileSystem fs) (content : Bytes)
    (fingerprint : Fingerprint) (before : Option Bytes) where
  -- A call on a sound disk that leaves the final path alone when it fails.
  abbrev pub Call : {A : Type 0} → (Disk → Type 0) → Io Other fs A → (A → Disk → Type 0) → Type 0
  Call P m Q = Triple laws (IsSound laws content fingerprint before) P m Q (Untouched before)

module _ {Other : Type 0} {fs : Files} (laws : IsFileSystem fs) (content : Bytes)
    (fingerprint : Fingerprint) (before : Option Bytes) (planned : ℕ) where
  create_part-IsOpened :
      Call Other laws content fingerprint before
        (IsCleared content before planned 0)
        (open_part Other fs 0)
        (λ u. IsOpened content before planned 0)
  unfolding open_part
  create_part-IsOpened =
      changes-Triple laws (IsSound laws content fingerprint before) _ _ fs.create_part
        (λ d. record d { part = some []; accepted = []; position = 0 })
        (λ w p. laws.create_part_law w)
        (λ u d i p. (
          (
            Vouches-prefix laws content fingerprint before
                (record d { part = some []; accepted = []; position = 0 }) [] refl (content, refl),
            i.1,
          ),
          record {
            target = p.fresh.target;
            cleared = p.cleared;
            held = refl;
            prefix = refl;
            position = refl;
          },
        ))
        (λ d p. p.fresh.target)

  open_handle-IsHeld :
      Call Other laws content fingerprint before
        (IsCleared content before planned planned)
        (io (codes "open") (path_of fs part) fs.open_part)
        (λ u. IsHeld content before planned planned)
  open_handle-IsHeld =
      law-Triple laws (IsSound laws content fingerprint before) _ _ fs.open_part Opens
        (λ w p. laws.open_part_law w)
        (λ u d d' i p (held, at, e).
          subst
            (λ x.
              IsSound laws content fingerprint before x × IsHeld content before planned planned x)
            (sym e)
            (
              i,
              record {
                clear = record {
                  fresh = record {
                    target = p.fresh.target;
                    planned_prefix = p.fresh.planned_prefix;
                  };
                  cleared = p.cleared;
                };
                held = at;
              },
            ))
        (λ x d d' i p e. (
          subst (IsSound laws content fingerprint before) (sym e) i,
          subst (Untouched before) (sym e) p.fresh.target,
        ))

  ensure_still_holds-Enough :
      Call Other laws content fingerprint before
        (IsHeld content before planned planned)
        (ensure_still_holds Other fs planned)
        (λ u. IsEnough content before planned)
  unfolding ensure_still_holds
  ensure_still_holds-Enough =
      bind-Triple laws (IsSound laws content fingerprint before)
        {Q = λ n d. IsHeld content before planned planned d × (n ≡ length d.accepted)}
        (law-Triple laws (IsSound laws content fingerprint before) _ _ fs.handle_len Measures
          (λ w p. laws.handle_len_law w)
          (λ n d d' i p (held, at, size, e).
            subst
              (λ x.
                IsSound laws content fingerprint before x
                × (IsHeld content before planned planned x × (n ≡ length x.accepted)))
              (sym e) (i, (p, size ∙ ap length (some-injective (sym at ∙ p.held)))))
          (λ x d d' i p e. (
            subst (IsSound laws content fingerprint before) (sym e) i,
            subst (Untouched before) (sym e) p.clear.fresh.target,
          )))
        (λ n. elim (Bool-cases (leb planned n)) [
          | inl enough ↦ rw enough (
              pure-Triple laws (IsSound laws content fingerprint before) tt
                (λ d i (p, size). (p, ground (arith, enough, size))))
          | inr short ↦ rw short (
              raise-Triple laws (IsSound laws content fingerprint before) _
                (λ d i (p, size). p.clear.fresh.target))
        ])

  set_len-IsCut :
      Call Other laws content fingerprint before
        (IsEnough content before planned)
        (io (codes "truncate") (path_of fs part) (fs.set_len planned))
        (λ u. IsCut content before planned planned)
  set_len-IsCut =
      changes-Triple laws (IsSound laws content fingerprint before) _ _ (fs.set_len planned)
        (λ d. record d {
          part = some (take planned d.accepted);
          accepted = take planned d.accepted;
        })
        (λ w (p, enough). laws.set_len_law planned w p.held enough)
        (λ u d i (p, enough).
          let start : take planned d.accepted ≡ take planned content =
            p.clear.fresh.planned_prefix d.accepted p.held enough in
          let cut : Disk = record d {
            part = some (take planned d.accepted);
            accepted = take planned d.accepted;
          } in
          (
            (
              Vouches-prefix laws content fingerprint before cut (take planned d.accepted) refl
                  (subst (λ l. IsPrefix l content) (sym start) (take-IsPrefix planned content)),
              i.1,
            ),
            record {
              target = p.clear.fresh.target;
              cleared = p.clear.cleared;
              held = refl;
              prefix = start;
            },
          ))
        (λ d (p, enough). p.clear.fresh.target)

  seek-IsOpened :
      Call Other laws content fingerprint before
        (IsCut content before planned planned)
        (io (codes "seek") (path_of fs part) (fs.seek planned))
        (λ u. IsOpened content before planned planned)
  seek-IsOpened =
      changes-Triple laws (IsSound laws content fingerprint before) _ _ (fs.seek planned)
        (λ d. record d { position = planned }) (λ w p. laws.seek_law planned w)
        (λ u d i p. (
          i,
          record {
            target = p.target;
            cleared = p.cleared;
            held = p.held;
            prefix = p.prefix;
            position = refl;
          },
        ))
        (λ d p. p.target)

  open_resumed-IsOpened :
      Call Other laws content fingerprint before
        (IsCleared content before planned planned)
        (open_resumed Other fs planned)
        (λ u. IsOpened content before planned planned)
  unfolding open_resumed
  open_resumed-IsOpened =
      bind-Triple laws (IsSound laws content fingerprint before) open_handle-IsHeld (λ u.
        bind-Triple laws (IsSound laws content fingerprint before) ensure_still_holds-Enough (λ u.
          bind-Triple laws (IsSound laws content fingerprint before) set_len-IsCut
            (λ u. seek-IsOpened)))

  open_part_at_planned :
      Call Other laws content fingerprint before
        (IsCleared content before planned planned)
        (open_part Other fs planned)
        (λ u. IsOpened content before planned planned)
  unfolding open_part
  open_part_at_planned = elim (Bool-cases (nat_eq planned 0)) [
    | inl none' ↦
        subst
          (λ n.
            Call Other laws content fingerprint before (IsCleared content before planned n)
              (open_part Other fs n) (λ u. IsOpened content before planned n))
          (sym (ground (arith, none'))) create_part-IsOpened
    | inr some' ↦ rw some' open_resumed-IsOpened
  ]

  pub open_part-IsOpened :
      (n : ℕ)
      → (n ≡ 0) ⊎ (n ≡ planned)
      → Call Other laws content fingerprint before
          (IsCleared content before planned n)
          (open_part Other fs n)
          (λ u. IsOpened content before planned n)
  open_part-IsOpened n (inl e) = rw e create_part-IsOpened
  open_part-IsOpened n (inr e) = rw e open_part_at_planned
