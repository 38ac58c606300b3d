-- ===== src/Serial/Refine.antt =====
-- The buffered reader against the plain one of `Wire`.
use nandroidfs.Serial.Reader.Refine.{Outcome, read_exact_lem}
use nandroidfs.Base.{
  ℕ, zero, suc, ◌<◌, ◌≡◌, refl, arith, Option, none, some, [], ◌∷◌, ◌++◌, Bytes, length,
}
use nandroidfs.Exec.{Result, ok, raise, eof}
use nandroidfs.Wire
use nandroidfs.Wire.RoundTrip.{read_exact-append}
use nandroidfs.Serial.Reader.{Readable, Reader, IsReader, read_exact, contents}

read_exact_short : (n : ℕ) (bytes : Bytes) → length bytes < n → Wire.read_exact n bytes ≡ none
unfolding Wire.read_exact
read_exact_short zero bytes h = absurd (omega arith)
read_exact_short (suc n) [] h = refl
read_exact_short (suc n) (b ∷ bytes) h = rw (read_exact_short n bytes (omega arith), Wire.with_head)

read_exact_whole :
    (n : ℕ) (bytes rest : Bytes)
    → length bytes ≡ n
    → Wire.read_exact n (bytes ++ rest) ≡ some (bytes, rest)
read_exact_whole n bytes rest h = rw (← h) (read_exact-append bytes rest)

module _ {S : Type 0} (io : Readable S) where
  -- The buffered read does what the plain read of the bytes to come does: it gives the same
  -- bytes and leaves the same rest, or it throws EOFException where the plain read has none.
  abbrev pub Refines : Option (Bytes × Bytes) → Option (Result Bytes × Reader S) → Type 0
  Refines (some (bytes, rest)) o =
      (r' : Reader S) × (o ≡ some (ok bytes, r')) × (contents io r' ≡ rest) × IsReader r'
  Refines none o = (r' : Reader S) × (o ≡ some (raise eof, r'))

  -- DataReader::read_exact refines the plain read, for every buffer size above 0, every state of
  -- the buffer with the position inside it, and every way in which the stream cuts its bytes into
  -- chunks: it gives the same bytes and leaves the same rest, or throws EOFException where the
  -- plain read has none, and its loops end.
  pub read_exact-Refines :
      (n : ℕ) (r : Reader S)
      → IsReader r
      → Refines (Wire.read_exact n (contents io r)) (read_exact io n r)
  read_exact-Refines n r v = let (x, r', runs, o) = read_exact_lem io n r v in cases x r' runs o
    where
      cases :
          (x : Result Bytes) (r' : Reader S)
          → read_exact io n r ≡ some (x, r')
          → Outcome io n [] r x r'
          → Refines (Wire.read_exact n (contents io r)) (read_exact io n r)
      cases (ok out) r' runs o =
          rw (← o.0, read_exact_whole n out (contents io r') (omega (arith, o.1)))
            (r', runs, refl, o.2)
      cases (raise eof) r' runs o = rw (read_exact_short n (contents io r) o) (r', runs)
      cases (raise _) r' runs o = absurd o
