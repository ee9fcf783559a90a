-- ===== src/Remote/Pump.antt =====
-- Streaming a file from a device, from crates/mtpx-core/src/internal/mtp/mod.rs. The channel is the
-- list of the items that were sent; a receiver that is dropped and a pump that panics are not modelled.
use mtpx.Base.{
  ℕ, zero, suc, ◌*◌, ◌≤◌, ◌<◌, ◌≡◌, ltb, Bool, true, false, ◌&&◌, List, [], ◌∷◌, ◌++◌, length,
  length-append, Option, none, some, Result, ok, err, refl, ap, subst, arith,
}
use mtpx.Mtp.{MtpError}
use mtpx.Error.{Error, from_mtp}
use mtpx.Local.Files.{Bytes}
use mtpx.Local.Filling.{Delivers}
use mtpx.Local.Vouching.{drop_bytes}

abbrev pub download_window : ℕ
download_window = 4 * 1024 * 1024

-- A `WindowedDownload` of the `mtp-rs` crate, with the cancel token.
pub record Download (Other : Type 0) : Type 1 where
  pub World : Type 0
  pub offset : World → ℕ
  pub size : World → ℕ
  pub is_cancelled : World → Bool × World
  pub next_window : World → Option (Result Bytes (MtpError Other)) × World

module _ {Other : Type 0} (download : Download Other) where
  abbrev pub item_of : Result Bytes (MtpError Other) → Result Bytes (Error Other)
  item_of (ok window) = ok window
  item_of (err e) = err (from_mtp e)

  -- The next item, where there is one.
  abbrev pub next_item :
      Bool → download.World → Option (Result Bytes (Error Other)) × download.World
  next_item true w = (some (err Error.cancelled), w)
  next_item false w =
      let (window, w') = download.next_window w in
      (elim window [ none ↦ none | some window ↦ some (item_of window) ], w')

  abbrev pub polled : download.World → Option (Result Bytes (Error Other)) × download.World
  polled w =
      let (cancelled, w') = download.is_cancelled w in
      next_item (cancelled && ltb (download.offset w') (download.size w')) w'

  -- `none` is a pump that needs more rounds.
  unfoldable pub pump :
      ℕ → download.World → Option (List (Result Bytes (Error Other)) × download.World)
  pump zero w = none
  pump (suc fuel) w =
      let (item, w') = polled w in
      elim item [
        | none ↦ some ([], w')
        | some item ↦ elim item [
          | err e ↦ some (err e ∷ [], w')
          | ok window ↦ elim (pump fuel w') [
            | none ↦ none
            | some (items, w2) ↦ some (ok window ∷ items, w2)
          ]
        ]
      ]

-- The items bring the rest of a file, or end in an error.
abbrev pub IsStream : {Other : Type 0} → List (Result Bytes (Error Other)) → Bytes → Type 0
IsStream [] rest = rest ≡ []
IsStream (err e ∷ items) rest = items ≡ []
IsStream (ok chunk ∷ items) rest = (rest' : Bytes) × (rest ≡ chunk ++ rest') × IsStream items rest'

pub IsStream-Delivers :
    {Other : Type 0} (items : List (Result Bytes (Error Other))) (rest : Bytes)
    → IsStream items rest
    → Delivers items rest
IsStream-Delivers [] rest h = tt
IsStream-Delivers (err e ∷ items) rest h = tt
IsStream-Delivers (ok chunk ∷ items) rest (rest', split, h) =
    (rest', split, IsStream-Delivers items rest' h)

abbrev pub IsWindow :
    {Other : Type 0} → Bytes → ℕ → Option (Result Bytes (MtpError Other)) → ℕ → Type 0
IsWindow content offset none offset' = drop_bytes offset content ≡ []
IsWindow content offset (some (err e)) offset' = Unit
IsWindow content offset (some (ok window)) offset' =
    (1 ≤ length window) × (drop_bytes offset content ≡ window ++ drop_bytes offset' content)

-- The device serves the file window by window from the offset to its end, or fails.
pub record IsServing {Other : Type 0} (download : Download Other) (content : Bytes) : Type 0 where
  pub polled_law :
      (w : download.World) → download.offset (download.is_cancelled w).1 ≡ download.offset w
  pub window_law :
      (w : download.World)
      → let (window, w') = download.next_window w in
        IsWindow content (download.offset w) window (download.offset w')

module _ {Other : Type 0} (download : Download Other) (content : Bytes)
    (serving : IsServing download content) where
  abbrev pub rest_at : download.World → Bytes
  rest_at w = drop_bytes (download.offset w) content

  abbrev pub Streams : Bytes → Option (List (Result Bytes (Error Other)) × download.World) → Type 0
  Streams rest o =
      (items : List (Result Bytes (Error Other))) × (w : download.World) × (o ≡ some (items, w))
      × IsStream items rest

  abbrev Brings : Bytes → Option (Result Bytes (Error Other)) → Bytes → Type 0
  Brings rest none rest' = rest ≡ []
  Brings rest (some (err e)) rest' = Unit
  Brings rest (some (ok window)) rest' = (1 ≤ length window) × (rest ≡ window ++ rest')

  next_item-Brings :
      (stopped : Bool) (w : download.World)
      → let (item, w') = next_item download stopped w in Brings (rest_at w) item (rest_at w')
  next_item-Brings true w = tt
  next_item-Brings false w =
      let (window, w') = download.next_window w in brings window w' (serving.window_law w)
    where
      brings :
          (window : Option (Result Bytes (MtpError Other))) (w' : download.World)
          → IsWindow content (download.offset w) window (download.offset w')
          → Brings
              (rest_at w)
              (elim window as (λ x. Option (Result Bytes (Error Other))) [
                | none ↦ none
                | some window ↦ some (item_of download window)
              ])
              (rest_at w')
      brings none w' h = h
      brings (some (err e)) w' h = tt
      brings (some (ok window)) w' h = h

  polled-Brings :
      (w : download.World)
      → let (item, w') = polled download w in Brings (rest_at w) item (rest_at w')
  polled-Brings w =
      let (cancelled, w') = download.is_cancelled w in
      let (item, w2) =
        next_item download (cancelled && ltb (download.offset w') (download.size w')) w' in
      subst (λ n. Brings (drop_bytes n content) item (rest_at w2)) (serving.polled_law w)
        (next_item-Brings (cancelled && ltb (download.offset w') (download.size w')) w')

  -- A pump ends, in one round more than the bytes that are left: its items bring them all, in order,
  -- or end in the first error.
  pub pump-Streams :
      (fuel : ℕ) (w : download.World)
      → length (rest_at w) < fuel
      → Streams (rest_at w) (pump download fuel w)
  unfolding pump
  pump-Streams zero w h = absurd (omega (arith, h))
  pump-Streams (suc fuel) w h =
      let (item, w') = polled download w in
      streams item w' (polled-Brings w) (λ less. pump-Streams fuel w' less)
    where
      follow :
          (window rest' : Bytes) (o : Option (List (Result Bytes (Error Other)) × download.World))
          → rest_at w ≡ window ++ rest'
          → Streams rest' o
          → Streams
              (rest_at w)
              (elim o as (λ x. Option (List (Result Bytes (Error Other)) × download.World)) [
                | none ↦ none
                | some (items, w2) ↦ some (ok window ∷ items, w2)
              ])
      follow window rest' o split (items, w2, e, stream) =
          (ok window ∷ items, w2, rw e refl, (rest', split, stream))

      streams :
          (item : Option (Result Bytes (Error Other))) (w' : download.World)
          → Brings (rest_at w) item (rest_at w')
          → (length (rest_at w') < fuel → Streams (rest_at w') (pump download fuel w'))
          → Streams
              (rest_at w)
              (elim item as (λ x. Option (List (Result Bytes (Error Other)) × download.World)) [
                | none ↦ some ([], w')
                | some item ↦ elim item [
                  | err e ↦ some (err e ∷ [], w')
                  | ok window ↦ elim (pump download fuel w') [
                    | none ↦ none
                    | some (items, w2) ↦ some (ok window ∷ items, w2)
                  ]
                ]
              ])
      streams none w' b more = ([], w', refl, b)
      streams (some (err e)) w' b more = (err e ∷ [], w', refl, refl)
      streams (some (ok window)) w' (full, split) more =
          follow window (rest_at w') (pump download fuel w') split
            (more (omega (arith, h, full, ap length split, length-append window (rest_at w'))))
