-- ===== src/Local/Triples.antt =====
-- Conditions on the disk before and after a call, for crates/mtpx-core/src/internal/local/mod.rs: an
-- invariant that holds in every world that is passed, and what holds after a success or a failure.
use mtpx.Base.{◌≡◌, sym, subst, All, Result, ok, err}
use mtpx.Std.Text.{Str}
use mtpx.Error.{Error, IoError}
use mtpx.Local.Files.{Files}
use mtpx.Local.Io.{State, Io, pure, raise, probe, attempt, catch, ◌>>=◌, local_io, io}
use mtpx.Local.Laws.{Disk, IsFileSystem, Changes}

-- What holds after a result.
abbrev pub After :
    {A E : Type 0} → (A → Disk → Type 0) → (Disk → Type 0) → Result A E → Disk → Type 0
After Q R (ok a) d = Q a d
After Q R (err e) d = R d

module _ {Other : Type 0} {fs : Files} (laws : IsFileSystem fs) (I : Disk → Type 0) where
  open laws use {disk}

  -- The invariant holds in the world, and held in every earlier one.
  abbrev pub IsSafe : State Other fs → Type 0
  IsSafe s = I (disk s.world) × All (λ w. I (disk w)) s.past

  pub record Triple {A : Type 0} (P : Disk → Type 0) (m : Io Other fs A) (Q : A → Disk → Type 0)
      (R : Disk → Type 0) : Type 0 where
    pub run :
        (s : State Other fs)
        → P (disk s.world)
        → IsSafe s
        → let (r, s') = m s in IsSafe s' × After Q R r (disk s'.world)

  pub bind-Triple :
      {A B : Type 0} {P : Disk → Type 0} {Q : A → Disk → Type 0} {S : B → Disk → Type 0}
      {R : Disk → Type 0} {m : Io Other fs A} {f : A → Io Other fs B}
      → Triple P m Q R
      → ((a : A) → Triple (Q a) (f a) S R)
      → Triple P (m >>= f) S R
  unfolding ◌>>=◌ raise
  bind-Triple {B = B} {Q = Q} {S = S} {R = R} {m = m} {f = f} h k = record {
    run = λ s p safe. let (safe', after) = h.run s p safe in go (m s).0 (m s).1 safe' after;
  }
    where
      go :
          (r : Result _ (Error Other)) (s' : State Other fs)
          → IsSafe s'
          → After Q R r (disk s'.world)
          → let (r', t) : Result B (Error Other) × State Other fs = elim r [
            | ok a ↦ f a s'
            | err e ↦ raise {fs = fs} e s'
          ] in
            IsSafe t × After S R r' (disk t.world)
      go (ok a) s' safe q = (k a).run s' q safe
      go (err e) s' safe q = (safe, q)

  pub pure-Triple :
      {A : Type 0} {P : Disk → Type 0} {Q : A → Disk → Type 0} {R : Disk → Type 0} (a : A)
      → ((d : Disk) → I d → P d → Q a d)
      → Triple P (pure a) Q R
  unfolding pure
  pure-Triple a h = record { run = λ s p safe. (safe, h (disk s.world) safe.0 p) }

  pub raise-Triple :
      {A : Type 0} {P : Disk → Type 0} {Q : A → Disk → Type 0} {R : Disk → Type 0} (e : Error Other)
      → ((d : Disk) → I d → P d → R d)
      → Triple P (raise e) Q R
  unfolding raise
  raise-Triple e h = record { run = λ s p safe. (safe, h (disk s.world) safe.0 p) }

  pub weaken-Triple :
      {A : Type 0} {P P' : Disk → Type 0} {Q Q' : A → Disk → Type 0} {R R' : Disk → Type 0}
      {m : Io Other fs A}
      → ((d : Disk) → I d → P' d → P d)
      → ((a : A) (d : Disk) → I d → Q a d → Q' a d)
      → ((d : Disk) → I d → R d → R' d)
      → Triple P m Q R
      → Triple P' m Q' R'
  weaken-Triple {Q = Q} {Q' = Q'} {R = R} {R' = R'} {m = m} f g h t = record {
    run = λ s p safe.
        let (safe', after) = t.run s (f (disk s.world) safe.0 p) safe in
        (safe', go (m s).0 (disk ((m s).1).world) safe'.0 after);
  }
    where
      go : (r : Result _ (Error Other)) (d : Disk) → I d → After Q R r d → After Q' R' r d
      go (ok a) d i q = g a d i q
      go (err e) d i q = h d i q

  -- One call of the file system, from what it does to the disk.
  pub io-Triple :
      {A : Type 0} {P : Disk → Type 0} {Q : A → Disk → Type 0} {R : Disk → Type 0} (op path : Str)
      (f : fs.World → Result A IoError × fs.World)
      → ((w : fs.World)
          → I (disk w)
          → P (disk w)
          → let (r, w') = f w in I (disk w') × After Q R r (disk w'))
      → Triple P (io op path f) Q R
  unfolding io
  io-Triple {Q = Q} {R = R} op path f h = record {
    run = λ s p safe.
        let (i, after) = h s.world safe.0 p in
        ((i, safe), go (f s.world).0 (disk (f s.world).1) after);
  }
    where
      go :
          (r : Result _ IoError) (d : Disk)
          → After Q R r d
          → After {E = Error Other} Q R (local_io op path r) d
      go (ok a) d q = q
      go (err e) d q = q

  pub attempt-Triple :
      {A : Type 0} {P Q R : Disk → Type 0} {m : Io Other fs A}
      → Triple P m (λ a. Q) Q
      → Triple P (attempt m) (λ a. Q) R
  unfolding attempt
  attempt-Triple {A = A} {Q = Q} {m = m} h = record {
    run = λ s p safe.
        let (safe', after) = h.run s p safe in (safe', go (m s).0 (disk ((m s).1).world) after);
  }
    where
      go : (r : Result A (Error Other)) (d : Disk) → After (λ a. Q) Q r d → Q d
      go (ok a) d q = q
      go (err e) d q = q

  pub catch-Triple :
      {A : Type 0} {P : Disk → Type 0} {Q : A → Disk → Type 0} {E R : Disk → Type 0}
      {m : Io Other fs A} {h : Error Other → Io Other fs A}
      → Triple P m Q E
      → ((e : Error Other) → Triple E (h e) Q R)
      → Triple P (catch m h) Q R
  unfolding catch
  catch-Triple {A = A} {Q = Q} {E = E} {R = R} {m = m} {h = h} t k = record {
    run = λ s p safe. let (safe', after) = t.run s p safe in go (m s).0 (m s).1 safe' after;
  }
    where
      go :
          (r : Result A (Error Other)) (s' : State Other fs)
          → IsSafe s'
          → After Q E r (disk s'.world)
          → let (r', u) : Result A (Error Other) × State Other fs = elim r [
            | ok a ↦ (ok a, s')
            | err e ↦ h e s'
          ] in
            IsSafe u × After Q R r' (disk u.world)
      go (ok a) s' safe q = (safe, q)
      go (err e) s' safe q = (k e).run s' q safe

  -- A condition that does not depend on the disk.
  pub known-Triple :
      {A : Type 0} {F : Type 0} {P : Disk → Type 0} {Q : A → Disk → Type 0} {R : Disk → Type 0}
      {m : Io Other fs A}
      → (F → Triple P m Q R)
      → Triple (λ d. P d × F) m Q R
  known-Triple h = record { run = λ s (p, f) safe. (h f).run s p safe }

  -- A call, and what its result means.
  pub probe-Triple :
      {A B : Type 0} {P : Disk → Type 0} {Q : B → Disk → Type 0} {R : Disk → Type 0}
      (f : fs.World → Result A IoError × fs.World) (g : Result A IoError → Result B (Error Other))
      (L : Disk → Result A IoError → Disk → Type 0)
      → ((w : fs.World) → P (disk w) → L (disk w) (f w).0 (disk (f w).1))
      → ((r : Result A IoError) (d d' : Disk) → I d → P d → L d r d' → I d' × After Q R (g r) d')
      → Triple P (probe f g) Q R
  unfolding probe
  probe-Triple f g L law h = record {
    run = λ s p safe.
        let (i, after) =
          h (f s.world).0 (disk s.world) (disk (f s.world).1) safe.0 p (law s.world p) in
        ((i, safe), after);
  }

  -- One call, from the law of what it does.
  pub law-Triple :
      {A : Type 0} {P : Disk → Type 0} {Q : A → Disk → Type 0} {R : Disk → Type 0} (op path : Str)
      (f : fs.World → Result A IoError × fs.World) (L : Disk → Result A IoError → Disk → Type 0)
      → ((w : fs.World) → P (disk w) → L (disk w) (f w).0 (disk (f w).1))
      → ((a : A) (d d' : Disk) → I d → P d → L d (ok a) d' → I d' × Q a d')
      → ((e : IoError) (d d' : Disk) → I d → P d → L d (err e) d' → I d' × R d')
      → Triple P (io op path f) Q R
  law-Triple {A = A} {P = P} {Q = Q} {R = R} op path f L law good bad =
      io-Triple op path f (λ w i p. go (f w).0 (disk w) (disk (f w).1) i p (law w p))
    where
      go : (r : Result A IoError) (d d' : Disk) → I d → P d → L d r d' → I d' × After Q R r d'
      go (ok a) d d' i p l = good a d d' i p l
      go (err e) d d' i p l = bad e d d' i p l

  -- A call that leaves the disk as it is.
  pub same-Triple :
      {A : Type 0} {P : Disk → Type 0} {R : Disk → Type 0} (op path : Str)
      (f : fs.World → Result A IoError × fs.World)
      → ((w : fs.World) → disk (f w).1 ≡ disk w)
      → ((d : Disk) → P d → R d)
      → Triple P (io op path f) (λ a. P) R
  same-Triple {A = A} {P = P} {R = R} op path f law bad =
      law-Triple op path f (λ d r d'. d' ≡ d) (λ w p. law w)
        (λ a d d' i p e. (subst I (sym e) i, subst P (sym e) p))
        (λ x d d' i p e. (subst I (sym e) i, bad d' (subst P (sym e) p)))

  -- A call that changes the disk in one way.
  pub changes-Triple :
      {A : Type 0} {P : Disk → Type 0} {Q : A → Disk → Type 0} {R : Disk → Type 0} (op path : Str)
      (f : fs.World → Result A IoError × fs.World) (changed : Disk → Disk)
      → ((w : fs.World) → P (disk w) → Changes (disk w) (f w).0 (disk (f w).1) (changed (disk w)))
      → ((a : A) (d : Disk) → I d → P d → I (changed d) × Q a (changed d))
      → ((d : Disk) → P d → R d)
      → Triple P (io op path f) Q R
  changes-Triple {A = A} {P = P} {Q = Q} {R = R} op path f changed law good bad =
      law-Triple op path f (λ d r d'. Changes d r d' (changed d)) law
        (λ a d d' i p e. let (i', q) = good a d i p in (subst I (sym e) i', subst (Q a) (sym e) q))
        (λ x d d' i p e. (subst I (sym e) i, bad d' (subst P (sym e) p)))
