-- ===== src/Serial/Tests.antt =====
-- The reader over a stream that hands out at most two bytes at a time, and the writer.
use nandroidfs.Base.{
  ℕ, ◌<◌, min, ◌≡◌, refl, arith, some, [], ◌∷◌, Bytes, length, take, drop, take-append-drop,
  length-take, ap,
}
use nandroidfs.Wire
use nandroidfs.Serial.Reader.{Readable, Reader, read_exact, contents}
use nandroidfs.Serial.Refine.{Refines, read_exact-Refines}
use nandroidfs.Serial.Writer
use nandroidfs.Serial.Writer.{Writer, Wrote}
use nandroidfs.Serial.Writer.Refine.{write_exact_lem}

two_at_end : (s : Bytes) (n : ℕ) → 0 < n → take (min n 2) s ≡ [] → s ≡ []
two_at_end [] n h e = refl
two_at_end (b ∷ s) n h e = absurd (omega (arith, length-take (min n 2) (b ∷ s), ap length e))

abbrev two_by_two : Readable Bytes
two_by_two = record {
  read = λ s n. (take (min n 2) s, drop (min n 2) s);
  remaining = λ s. s;
  takes = λ s n. take-append-drop (min n 2) s;
  at_most = λ s n. omega (arith, length-take (min n 2) s);
  at_end = two_at_end;
}

abbrev half_read : Reader Bytes
half_read = record {
  stream = 3 ∷ 4 ∷ 5 ∷ 6 ∷ 7 ∷ 8 ∷ 9 ∷ [];
  buffer_size = 4;
  buffer = 0 ∷ 1 ∷ 2 ∷ [];
  position = 1;
}

read_exact-Refines_example :
    Refines two_by_two
      (Wire.read_exact 7 (contents two_by_two half_read))
      (read_exact two_by_two 7 half_read)
read_exact-Refines_example =
    read_exact-Refines two_by_two 7 half_read
      (record { size = omega arith; position = omega arith })

abbrev half_full : Writer
half_full = record { buffer_size = 4; buffer = 1 ∷ 2 ∷ 3 ∷ []; sent = [] }

write_exact_lem_example :
    (w' : Writer) × (Writer.write_exact (4 ∷ 5 ∷ 6 ∷ []) half_full ≡ some w')
    × Wrote (4 ∷ 5 ∷ 6 ∷ []) half_full w'
write_exact_lem_example = write_exact_lem (4 ∷ 5 ∷ 6 ∷ []) half_full (record { fits = omega arith })
