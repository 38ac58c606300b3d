-- ===== src/Serial/Reader.antt =====
-- DataReader: a buffer over a stream that gives some of its bytes at a time (`Readable`).
pub mod PastBuffer
pub mod Refine
use nandroidfs.Base.{
  ℕ, zero, suc, ◌+◌, ◌-◌, ◌≤◌, ◌<◌, min, ◌≡◌, refl, arith, Option, none, some, [], ◌∷◌, ◌++◌, Bytes,
  length, take, drop, ◌==◌, leb, if◌then◌else◌,
}
use nandroidfs.Exec.{Result, ok, raise, eof}

-- `Readable`: `read` gives the bytes that it put into the buffer, none at the end of the stream.
pub record Readable (S : Type 0) : Type 0 where
  pub read : S → ℕ → Bytes × S
  pub remaining : S → Bytes
  pub takes : (s : S) (n : ℕ) → (read s n).0 ++ remaining (read s n).1 ≡ remaining s
  pub at_most : (s : S) (n : ℕ) → length (read s n).0 ≤ n
  pub at_end : (s : S) (n : ℕ) → 0 < n → (read s n).0 ≡ [] → remaining s ≡ []

-- `buffer` is the part of the buffer that was last read into.
pub record Reader (S : Type 0) : Type 0 where
  pub stream : S
  pub buffer_size : ℕ
  pub buffer : Bytes
  pub position : ℕ

pub record IsReader {S : Type 0} (r : Reader S) : Type 0 where
  pub size : 0 < r.buffer_size
  pub position : r.position ≤ length r.buffer

-- The bytes still wanted, the bytes that were copied to the destination, and the stream.
pub record Direct (S : Type 0) : Type 0 where
  pub num_bytes : ℕ
  pub into : Bytes
  pub stream : S

module _ {S : Type 0} (io : Readable S) where
  -- The inner loop: as long as a whole buffer is wanted, read past the buffer.
  abbrev after_direct : (Direct S → Option (Direct S)) → Direct S → Bytes → S → Option (Direct S)
  after_direct next d [] stream = some (record d { stream = stream })
  after_direct next d (b ∷ chunk) stream = next (record {
    num_bytes = d.num_bytes - length (b ∷ chunk);
    into = d.into ++ (b ∷ chunk);
    stream = stream;
  })

  unfoldable pub read_direct : ℕ → ℕ → Direct S → Option (Direct S)
  read_direct zero size d = none
  read_direct (suc fuel) size d =
      let next = read_direct fuel size in
      let got = io.read d.stream d.num_bytes in
      if leb size d.num_bytes then after_direct next d got.0 got.1 else some d

  -- Once less than a buffer is wanted, fill the buffer again; nothing to fill it with is the end.
  abbrev refill :
      (ℕ → Bytes → Reader S → Option (Result Bytes × Reader S))
      → Direct S
      → Reader S
      → Bytes
      → S
      → Option (Result Bytes × Reader S)
  refill next d r [] stream = some (raise eof, record r { stream = stream })
  refill next d r (b ∷ chunk) stream =
      next d.num_bytes d.into (record r { stream = stream; buffer = b ∷ chunk; position = 0 })

  abbrev fill :
      (ℕ → Bytes → Reader S → Option (Result Bytes × Reader S))
      → Reader S
      → Option (Direct S)
      → Option (Result Bytes × Reader S)
  fill next r none = none
  fill next r (some d) =
      let got = io.read d.stream r.buffer_size in
      if d.num_bytes == 0
      then next 0 d.into (record r { stream = d.stream })
      else refill next d r got.0 got.1

  -- One round of the outer loop. `into` is what was read before it.
  abbrev round :
      (ℕ → Bytes → Reader S → Option (Result Bytes × Reader S))
      → ℕ
      → Bytes
      → Reader S
      → Option (Result Bytes × Reader S)
  round next num_bytes into r =
      let bytes_to_copy = min num_bytes (length r.buffer - r.position) in
      fill next (record r { position = r.position + bytes_to_copy })
        (read_direct (num_bytes + 1) r.buffer_size (record {
          num_bytes = num_bytes - bytes_to_copy;
          into = into ++ take bytes_to_copy (drop r.position r.buffer);
          stream = r.stream;
        }))

  unfoldable pub read_loop : ℕ → ℕ → Bytes → Reader S → Option (Result Bytes × Reader S)
  read_loop zero num_bytes into r = none
  read_loop (suc fuel) num_bytes into r =
      let next = read_loop fuel in
      if num_bytes == 0 then some (ok into, r) else round next num_bytes into r

  -- `none` means that the fuel ran out.
  unfoldable pub read_exact : ℕ → Reader S → Option (Result Bytes × Reader S)
  read_exact num_bytes = read_loop (num_bytes + 2) num_bytes []

  -- The bytes that are still to come.
  abbrev pub contents : Reader S → Bytes
  contents r = drop r.position r.buffer ++ io.remaining r.stream
