-- ===== src/Local/Io.antt =====
-- Calls that change the world and may fail, for crates/mtpx-core/src/internal/local/mod.rs. The state
-- keeps every world that was passed, since a process may be killed in any of them.
use mtpx.Base.{Bool, true, false, List, ◌∷◌, Result, ok, err}
use mtpx.Std.Text.{Str}
use mtpx.Error.{Error, IoError, IoErrorKind}
use mtpx.Local.Files.{Files}

-- `.map_err(Error::local_io(op, path))`
abbrev pub local_io : {Other A : Type 0} → Str → Str → Result A IoError → Result A (Error Other)
local_io op path (ok a) = ok a
local_io op path (err e) = err (Error.local_io op path e)

module _ (Other : Type 0) (fs : Files) where
  pub record State : Type 0 where
    pub world : fs.World
    pub past : List fs.World

  abbrev pub Io : Type 0 → Type 0
  Io A = State → Result A (Error Other) × State

module _ {Other : Type 0} {fs : Files} where
  -- A call of the file system.
  abbrev pub call : {A : Type 0} → (fs.World → A × fs.World) → State Other fs → A × State Other fs
  call f s = let (a, w) = f s.world in (a, record { world = w; past = s.world ∷ s.past })

  unfoldable pub pure : {A : Type 0} → A → Io Other fs A
  pure a s = (ok a, s)

  unfoldable pub raise : {A : Type 0} → Error Other → Io Other fs A
  raise e s = (err e, s)

  infixl 5 ◌>>=◌ ◌>>◌
  unfoldable pub ◌>>=◌ : {A B : Type 0} → Io Other fs A → (A → Io Other fs B) → Io Other fs B
  unfolding raise
  ◌>>=◌ m f s = let (r, s') = m s in elim r [ ok a ↦ f a s' | err e ↦ raise e s' ]

  abbrev pub ◌>>◌ : {A B : Type 0} → Io Other fs A → Io Other fs B → Io Other fs B
  m >> k = m >>= λ _. k

  -- A call, and what its result means.
  unfoldable pub probe :
      {A B : Type 0}
      → (fs.World → Result A IoError × fs.World)
      → (Result A IoError → Result B (Error Other))
      → Io Other fs B
  probe f g s = let (r, s') = call f s in (g r, s')

  -- A call whose failure is only logged.
  unfoldable pub attempt : {A : Type 0} → Io Other fs A → Io Other fs (Unit {0})
  attempt m s = let (r, s') = m s in (ok tt, s')

  -- What is done about an error.
  unfoldable pub catch :
      {A : Type 0} → Io Other fs A → (Error Other → Io Other fs A) → Io Other fs A
  catch m h s = let (r, s') = m s in elim r [ ok a ↦ (ok a, s') | err e ↦ h e s' ]

  unfoldable pub io :
      {A : Type 0} → Str → Str → (fs.World → Result A IoError × fs.World) → Io Other fs A
  io op path f s = let (r, s') = call f s in (local_io op path r, s')

abbrev pub is_not_found : IoErrorKind → Bool
is_not_found IoErrorKind.not_found = true
is_not_found _ = false
