-- ===== src/Tests/Streams.antt =====
-- A pull of a small file, from a device that serves four bytes at a time.
use mtpx.Base.{
  ℕ, zero, suc, ◌+◌, ◌≡◌, refl, sym, ap, ◌∙◌, false, List, [], ◌∷◌, ◌++◌, take, Option, none, some,
  Result, ok, arith,
}
use mtpx.Std.Text.{codes}
use mtpx.Mtp.{MtpError}
use mtpx.Error.{Error}
use mtpx.Local.Files.{Bytes}
use mtpx.Local.Vouching.{drop_bytes}
use mtpx.Local.Opening.{take-append_drop_bytes}
use mtpx.Local.Writer.{write}
use mtpx.Local.Whole.{Leaves}
use mtpx.Remote.Pump.{Download, pump, IsWindow, IsServing, Streams, pump-Streams}
use mtpx.Pull.{pump-write-Leaves}
use mtpx.Tests.Writes.{
  memory, memory_laws, phone, photo, old, request, version, start, start-IsSafe, start-IsFresh,
}

abbrev window_of : Bytes → ℕ → Option (Result Bytes (MtpError ⊥)) × ℕ
window_of [] n = (none, n)
window_of (b ∷ rest) n = (some (ok (take 4 (b ∷ rest))), n + 4)

abbrev served : Download ⊥
served = record {
  World = ℕ;
  offset = λ n. n;
  size = λ n. 10;
  is_cancelled = λ n. (false, n);
  next_window = λ n. window_of (drop_bytes n photo) n;
}

drop_bytes_nil : (n : ℕ) → drop_bytes n [] ≡ []
drop_bytes_nil zero = refl
drop_bytes_nil (suc n) = refl

drop_bytes-add : (n m : ℕ) (xs : Bytes) → drop_bytes (n + m) xs ≡ drop_bytes m (drop_bytes n xs)
drop_bytes-add zero m xs = ap (λ k. drop_bytes k xs) (omega arith)
drop_bytes-add (suc n) m [] = drop_bytes_nil (suc n + m) ∙ sym (drop_bytes_nil m)
drop_bytes-add (suc n) m (x ∷ xs) =
    let next : suc n + m ≡ suc (n + m) = omega arith in
    ap (λ k. drop_bytes k (x ∷ xs)) next ∙ drop_bytes-add n m xs

window_of-IsWindow :
    (n : ℕ) (rest : Bytes)
    → drop_bytes n photo ≡ rest
    → let (window, n') = window_of rest n in IsWindow photo n window n'
window_of-IsWindow n [] h = h
window_of-IsWindow n (b ∷ rest) h = (
  omega arith,
  h
      ∙ sym (take-append_drop_bytes 4 (b ∷ rest))
      ∙ ap (λ l. take 4 (b ∷ rest) ++ l) (sym (drop_bytes-add n 4 photo ∙ ap (drop_bytes 4) h)),
)

served-IsServing : IsServing served photo
served-IsServing = record {
  polled_law = λ n. refl;
  window_law = λ n. window_of-IsWindow n (drop_bytes n photo) refl;
}

three_windows :
    pump served 11 0 ≡ some (ok (codes "0123") ∷ ok (codes "4567") ∷ ok (codes "89") ∷ [], 12)
unfolding pump
three_windows = refl

pump-Streams_example : Streams served photo served-IsServing photo (pump served 11 0)
pump-Streams_example = pump-Streams served photo served-IsServing 11 0 (omega arith)

pump-write-Leaves_example :
    (items : List (Result Bytes (Error ⊥))) × (w' : ℕ) × (pump served 11 0 ≡ some (items, w'))
    × Leaves memory_laws photo version old (write ⊥ memory phone request items start)
pump-write-Leaves_example =
    pump-write-Leaves memory_laws photo version old served served-IsServing phone request 0 start
      refl (omega arith) refl start-IsFresh start-IsSafe
