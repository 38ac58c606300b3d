-- ===== src/Serial/Writer.antt =====
-- DataWriter: a buffer in front of a stream that takes every byte it is given (`Writable`).
pub mod Refine
use nandroidfs.Base.{
  ℕ, zero, suc, ◌+◌, ◌-◌, ◌≤◌, ◌<◌, min, ◌≡◌, refl, sym, ◌∙◌, ap, arith, Option, none, some, [],
  ◌∷◌, ◌++◌, Bytes, length, take, drop, ◌==◌, if◌then◌else◌, true, false, append-nil, append_assoc,
  length-append, length-take, length-drop, Bool-cases, take-append-drop, inl, inr,
}

-- `buffer` holds the bytes that are filled, and `sent` what the stream was given.
pub record Writer : Type 0 where
  pub buffer_size : ℕ
  pub buffer : Bytes
  pub sent : Bytes

unfoldable pub flush : Writer → Writer
flush w = record w { buffer = []; sent = w.sent ++ w.buffer }

-- What the loop does behind the copy: flush, if there is still more to write.
abbrev flush_if_more : Bytes → Writer → Writer
flush_if_more [] w = w
flush_if_more (b ∷ bytes) w = record w { buffer = []; sent = w.sent ++ w.buffer }

-- The loop of `write_exact` on fuel; `none` means that the fuel ran out.
unfoldable pub write_loop : ℕ → Bytes → Writer → Option Writer
write_loop fuel [] w = some w
write_loop zero (b ∷ bytes) w = none
write_loop (suc fuel) (b ∷ bytes) w =
    let data_len = length (b ∷ bytes) in
    let len_to_write = min data_len (w.buffer_size - length w.buffer) in
    let left = drop len_to_write (b ∷ bytes) in
    let copied = record w { buffer = w.buffer ++ take len_to_write (b ∷ bytes) } in
    let rest = write_loop fuel left (flush_if_more left copied) in
    if len_to_write == w.buffer_size then some (record w { sent = w.sent ++ (b ∷ bytes) }) else rest

-- Two rounds are enough: after the first the buffer is empty.
unfoldable pub write_exact : Bytes → Writer → Option Writer
write_exact = write_loop 2

-- Everything that was written, sent or not.
abbrev pub contents : Writer → Bytes
contents w = w.sent ++ w.buffer

pub record IsWriter (w : Writer) : Type 0 where
  pub fits : length w.buffer ≤ w.buffer_size

-- What a write has to do: it adds the bytes behind those that were written before.
pub record Wrote (bytes : Bytes) (w w' : Writer) : Type 0 where
  pub contents_lem : contents w' ≡ contents w ++ bytes
  pub size : w'.buffer_size ≡ w.buffer_size
  pub valid : IsWriter w'
