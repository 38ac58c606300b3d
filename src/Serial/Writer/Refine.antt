-- ===== src/Serial/Writer/Refine.antt =====
-- Whatever the size of the buffer, what is written arrives whole and in order.
use nandroidfs.Base.{
  ℕ, suc, ◌-◌, ◌≤◌, ◌<◌, min, ◌≡◌, refl, sym, ◌∙◌, ap, arith, some, [], ◌∷◌, ◌++◌, Bytes, length,
  take, drop, ◌==◌, true, false, append-nil, append_assoc, length-append, length-take, Bool-cases,
  take-append-drop, take_all, drop_all, inl, inr, ==_iff,
}
use nandroidfs.Serial.Writer.{
  Writer, IsWriter, Wrote, contents, write_loop, write_exact, flush, flush_if_more,
}

abbrev Writes : ℕ → Bytes → Writer → Type 0
Writes fuel bytes w = (w' : Writer) × (write_loop fuel bytes w ≡ some w') × Wrote bytes w w'

length-eq-zero : (xs : Bytes) → length xs ≤ 0 → xs ≡ []
length-eq-zero [] h = refl
length-eq-zero (x ∷ xs) h = absurd (omega arith)

abbrev room : Bytes → Writer → ℕ
room bytes w = min (length bytes) (w.buffer_size - length w.buffer)

abbrev copied : Bytes → Writer → Writer
copied bytes w = record w { buffer = w.buffer ++ take (room bytes w) bytes }

-- A round that copies less than a whole buffer.
part_round :
    (fuel b : ℕ) (bytes : Bytes) (w : Writer)
    → (room (b ∷ bytes) w == w.buffer_size) ≡ false
    → write_loop (suc fuel) (b ∷ bytes) w
      ≡ write_loop fuel
          (drop (room (b ∷ bytes) w) (b ∷ bytes))
          (flush_if_more (drop (room (b ∷ bytes) w) (b ∷ bytes)) (copied (b ∷ bytes) w))
unfolding write_loop
part_round fuel b bytes w h = rw h

-- A round that finds room for a whole buffer writes all of the data past the buffer.
whole_round :
    (fuel b : ℕ) (bytes : Bytes) (w : Writer)
    → IsWriter w
    → (room (b ∷ bytes) w == w.buffer_size) ≡ true
    → Writes (suc fuel) (b ∷ bytes) w
unfolding write_loop
whole_round fuel b bytes w v h =
    let e : room (b ∷ bytes) w ≡ w.buffer_size = (==_iff _ _).0 h in
    let none_filled : w.buffer ≡ [] = length-eq-zero w.buffer (omega (arith, v.fits, e)) in
    (
      record w { sent = w.sent ++ (b ∷ bytes) },
      rw h,
      record {
        contents_lem = rw (none_filled, append-nil (w.sent ++ (b ∷ bytes)), append-nil w.sent);
        size = refl;
        valid = record { fits = v.fits };
      },
    )

room-lt :
    (bytes : Bytes) (w : Writer)
    → (room bytes w == w.buffer_size) ≡ false
    → room bytes w < w.buffer_size
room-lt bytes w h = ground arith

copied-IsWriter : (bytes : Bytes) (w : Writer) → IsWriter w → IsWriter (copied bytes w)
copied-IsWriter bytes w v = record {
  fits = omega (
    arith,
    v.fits,
    length-append w.buffer (take (room bytes w) bytes),
    length-take (room bytes w) bytes,
  );
}

-- With an empty buffer one round is enough.
write_empty : (bytes : Bytes) (w : Writer) → w.buffer ≡ [] → Writes 1 bytes w
write_empty [] w e =
    unfold write_loop in
    (
      w,
      refl,
      record {
        contents_lem = sym (append-nil (contents w));
        size = refl;
        valid = record { fits = rw e (omega arith) };
      },
    )
write_empty (b ∷ bytes) w e = elim (Bool-cases (room (b ∷ bytes) w == w.buffer_size)) [
  | inl whole ↦ whole_round 0 b bytes w (record { fits = rw e (omega arith) }) whole
  | inr part ↦
      let none_filled : length w.buffer ≡ 0 = rw e refl in
      let all : length (b ∷ bytes) ≤ room (b ∷ bytes) w =
        omega (arith, room-lt (b ∷ bytes) w part, none_filled) in
      (
        copied (b ∷ bytes) w,
        part_round 0 b bytes w part
            ∙ rw (drop_all (room (b ∷ bytes) w) (b ∷ bytes) all) (unfold write_loop in refl),
        record {
          contents_lem = rw (take_all (room (b ∷ bytes) w) (b ∷ bytes) all, e, append-nil w.sent);
          size = refl;
          valid = copied-IsWriter (b ∷ bytes) w (record { fits = omega (arith, none_filled) });
        },
      )
]

-- The second round, on the data that the first has left.
second_round :
    (data' left : Bytes) (w : Writer)
    → IsWriter (copied data' w)
    → take (room data' w) data' ++ left ≡ data'
    → (w' : Writer) × (write_loop 1 left (flush_if_more left (copied data' w)) ≡ some w')
      × Wrote data' w w'
unfolding flush
second_round data' [] w v e =
    unfold write_loop in
    (
      copied data' w,
      refl,
      record {
        contents_lem =
            rw append_assoc
              (ap (λ (t : Bytes). w.sent ++ (w.buffer ++ t)) (sym (append-nil _) ∙ e));
        size = refl;
        valid = v;
      },
    )
second_round data' (b ∷ left) w v e =
    let (w', runs, wrote) = write_empty (b ∷ left) (flush (copied data' w)) refl in
    (
      w',
      runs,
      record {
        contents_lem = wrote.contents_lem ∙ simp (append-nil, append_assoc, e);
        size = wrote.size;
        valid = wrote.valid;
      },
    )

-- From a buffer that is filled within its size, DataWriter::write_exact ends within two rounds,
-- keeps the buffer within its size, and adds exactly its bytes behind what was written before.
pub write_exact_lem :
    (bytes : Bytes) (w : Writer)
    → IsWriter w
    → (w' : Writer) × (write_exact bytes w ≡ some w') × Wrote bytes w w'
unfolding write_exact
write_exact_lem [] w v =
    unfold write_loop in
    (w, refl, record { contents_lem = sym (append-nil (contents w)); size = refl; valid = v })
write_exact_lem (b ∷ bytes) w v = elim (Bool-cases (room (b ∷ bytes) w == w.buffer_size)) [
  | inl whole ↦ whole_round 1 b bytes w v whole
  | inr part ↦ rw (part_round 1 b bytes w part) (
      second_round (b ∷ bytes) (drop (room (b ∷ bytes) w) (b ∷ bytes)) w
        (copied-IsWriter (b ∷ bytes) w v) (take-append-drop (room (b ∷ bytes) w) (b ∷ bytes)))
]

-- After a flush the stream has everything.
pub flush_lem : (w : Writer) → ((flush w).sent ≡ contents w) × ((flush w).buffer ≡ [])
unfolding flush
flush_lem w = (refl, refl)
