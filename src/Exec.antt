-- ===== src/Exec.antt =====
-- Code that changes an object and may throw: what was changed before a throw stays changed. The
-- object on both sides of the connection is a `Port`, the two ends of a `DataReader` and a
-- `DataWriter` over one socket (nandroid_shared/serialization.hpp).
use nandroidfs.Base.{ℕ, Option, none, some, [], ◌++◌, Bytes, if◌then◌else◌}
use nandroidfs.Wire.{Put}

-- `eof` is EOFException, `socket_error` the exception of a failed `recv` or `send`, `runtime` any
-- std::runtime_error. `undefined` stands for what C++ does not define. `stuck` is no exception: a loop of the model has used up its fuel.
pub data Exception : Type 0 where
  eof : Exception
  socket_error : ℕ → Exception
  runtime : Exception
  undefined : Exception
  stuck : Exception

pub data Result (A : Type 0) : Type 0 where
  ok : A → Result A
  raise : Exception → Result A

abbrev pub Exec : Type 0 → Type 0 → Type 0
Exec S A = S → Result A × S

module _ {S A B : Type 0} where
  abbrev pub continue : Result A → (A → Exec S B) → Exec S B
  continue (ok a) f s = f a s
  continue (raise e) f s = (raise e, s)

  infixl 5 ◌>>=◌ ◌>>◌
  abbrev pub ◌>>=◌ : Exec S A → (A → Exec S B) → Exec S B
  ◌>>=◌ m f s = continue (m s).0 f (m s).1

  abbrev pub ◌>>◌ : Exec S A → Exec S B → Exec S B
  m >> n = m >>= λ _. n

module _ {S A : Type 0} where
  abbrev pub pure : A → Exec S A
  pure a s = (ok a, s)

  abbrev pub throw : Exception → Exec S A
  throw e s = (raise e, s)

  abbrev pub gets : (S → A) → Exec S A
  gets f s = (ok (f s), s)

-- What has not been read yet, what was written since the last flush, and what was flushed.
pub record Port : Type 0 where
  pub input : Bytes
  pub pending : Bytes
  pub sent : Bytes

-- A value read off the stream. A stream that ends inside the value has been read to its end.
abbrev pub read_with : {A : Type 0} → Option (A × Bytes) → Port → Result A × Port
read_with none p = (raise eof, record p { input = [] })
read_with (some (a, rest)) p = (ok a, record p { input = rest })

abbrev pub write_with : Put → Port → Result Unit × Port
write_with w p =
    (if w.fits then ok tt else raise runtime, record p { pending = p.pending ++ w.bytes })

abbrev pub flushed : Port → Port
flushed p = record p { pending = []; sent = p.sent ++ p.pending }
