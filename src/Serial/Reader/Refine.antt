-- ===== src/Serial/Reader/Refine.antt =====
-- Whatever the size of the buffer and of the chunks that the stream gives, a read takes exactly
-- its bytes off the front of what is to come, or finds the end of the stream.
use nandroidfs.Base.{
  drop-drop, drop_all, take_all, ℕ, zero, suc, ◌+◌, ◌-◌, ◌≤◌, ◌<◌, min, ◌≡◌, refl, sym, ◌∙◌, arith,
  Option, some, [], ◌∷◌, ◌++◌, Bytes, length, take, drop, ◌==◌, leb, ap, Bool-cases, inl, inr,
  ==_iff, leb→le, append_assoc, length-append, length-take, length-drop, take-append-drop,
}
use nandroidfs.Exec.{Result, ok, raise, eof}
use nandroidfs.Serial.Reader.{
  Readable, Reader, Direct, read_loop, read_exact, contents, IsReader, refill, fill,
}
use nandroidfs.Serial.Reader.PastBuffer.{Moved, takes_chunk, read_direct_lem}

module _ {S : Type 0} (io : Readable S) where
  -- What a read of `n` bytes behind `into` has to do.
  abbrev pub Outcome : ℕ → Bytes → Reader S → Result Bytes → Reader S → Type 0
  Outcome n into r (ok out) r' =
      (out ++ contents io r' ≡ into ++ contents io r)
      × (length out ≡ length into + n)
      × IsReader r'
      × (r'.buffer_size ≡ r.buffer_size)
  Outcome n into r (raise eof) r' = length (contents io r) < n
  Outcome n into r (raise e) r' = ⊥

  abbrev Reads : Option (Result Bytes × Reader S) → ℕ → Bytes → Reader S → Type 0
  Reads o n into r =
      (x : Result Bytes) × (r' : Reader S) × (o ≡ some (x, r')) × Outcome n into r x r'

  -- The bytes that the buffer still holds, and the request that is left for the stream.
  abbrev held : Reader S → Bytes
  held r = drop r.position r.buffer

  abbrev copy : ℕ → Reader S → ℕ
  copy n r = min n (length r.buffer - r.position)

  abbrev start : ℕ → Bytes → Reader S → Direct S
  start n into r = record {
    num_bytes = n - copy n r;
    into = into ++ take (copy n r) (held r);
    stream = r.stream;
  }

  -- Behind the copy and the direct reads, nothing is lost, if no buffer is left over.
  exhausted :
      (n : ℕ) (into : Bytes) (r : Reader S) (d' : Direct S) (size : ℕ)
      → IsReader r
      → copy n r ≡ length r.buffer - r.position
      → Moved io size (start n into r) d'
      → (d'.into ++ io.remaining d'.stream ≡ into ++ contents io r)
        × (length d'.into + d'.num_bytes ≡ length into + n)
  exhausted n into r d' size v e m =
      let full : take (copy n r) (held r) ≡ held r =
        take_all (copy n r) (held r) (omega (arith, e, length-drop r.position r.buffer)) in
      (
        m.all ∙ rw (full, append_assoc),
        omega (
          arith,
          m.count,
          e,
          length-append into (take (copy n r) (held r)),
          length-take (copy n r) (held r),
          length-drop r.position r.buffer,
        ),
      )

  read_loop_zero :
      (fuel : ℕ) (into : Bytes) (r : Reader S)
      → 0 < fuel
      → read_loop io fuel 0 into r ≡ some (ok into, r)
  unfolding read_loop
  read_loop_zero zero into r h = absurd (omega arith)
  read_loop_zero (suc fuel) into r h = refl

  -- The request ended with the copy and the direct reads.
  finished :
      (n : ℕ) (into : Bytes) (r : Reader S) (d' : Direct S)
      → IsReader r
      → Moved io r.buffer_size (start n into r) d'
      → d'.num_bytes ≡ 0
      → Outcome n into r
          (ok d'.into)
          (record r { position = r.position + copy n r; stream = d'.stream })
  finished n into r d' v m e = elim (Bool-cases (leb n (length r.buffer - r.position))) [
    | inl enough ↦
        let same = m.kept (omega (arith, v.size, leb→le n _ enough)) in
        let into_same = ap (λ (d : Direct S). d.into) same in
        let stream_same = ap (λ (d : Direct S). d.stream) same in
        let taken = take (copy n r) (held r) in
        (
          rw (into_same, stream_same, ← drop-drop r.position (copy n r) r.buffer)
              (append_assoc into taken _
                ∙ ap (λ (t : Bytes). into ++ t)
                    (sym (append_assoc taken (drop (copy n r) (held r)) (io.remaining r.stream))
                      ∙ ap (λ (t : Bytes). t ++ io.remaining r.stream)
                          (take-append-drop (copy n r) (held r)))),
          omega (
            arith,
            m.count,
            e,
            leb→le n _ enough,
            length-append into taken,
            length-take (copy n r) (held r),
            length-drop r.position r.buffer,
          ),
          record { size = v.size; position = omega (arith, v.position) },
          refl,
        )
    | inr short ↦
        let used : copy n r ≡ length r.buffer - r.position = ground arith in
        let facts = exhausted n into r d' r.buffer_size v used m in
        let over : drop (r.position + copy n r) r.buffer ≡ [] =
          drop_all (r.position + copy n r) r.buffer (omega (arith, v.position, used)) in
        (
          rw over facts.0,
          omega (arith, facts.1, e),
          record { size = v.size; position = omega (arith, used, v.position) },
          refl,
        )
  ]

  abbrev refilled : Reader S → Bytes → S → Reader S
  refilled r chunk stream = record r { stream = stream; buffer = chunk; position = 0 }

  -- What the rest of the loop does on the refilled buffer serves the whole request.
  transfer :
      (n : ℕ) (into : Bytes) (r : Reader S) (d' : Direct S) (chunk : Bytes) (x : Result Bytes)
      (r' : Reader S)
      → (io.read d'.stream r.buffer_size).0 ≡ chunk
      → d'.into ++ io.remaining d'.stream ≡ into ++ contents io r
      → length d'.into + d'.num_bytes ≡ length into + n
      → Outcome d'.num_bytes d'.into (refilled r chunk (io.read d'.stream r.buffer_size).1) x r'
      → Outcome n into r x r'
  transfer n into r d' chunk (ok out) r' e all count o = (
    o.0 ∙ ap (λ (t : Bytes). d'.into ++ t) (takes_chunk io d'.stream r.buffer_size chunk e) ∙ all,
    omega (arith, o.1, count),
    o.2,
    o.3,
  )
  transfer n into r d' chunk (raise eof) r' e all count o =
      let took = takes_chunk io d'.stream r.buffer_size chunk e in
      let left : length (chunk ++ io.remaining (io.read d'.stream r.buffer_size).1) < d'.num_bytes =
        o in
      omega (
        arith,
        left,
        ap (λ (t : Bytes). length t) took,
        ap (λ (t : Bytes). length t) all,
        length-append d'.into (io.remaining d'.stream),
        length-append into (contents io r),
        count,
      )
  transfer n into r d' chunk (raise _) r' e all count o = absurd o

  module _ (next : ℕ → Bytes → Reader S → Option (Result Bytes × Reader S)) (n : ℕ) (into : Bytes)
      (r : Reader S) (d' : Direct S) (v : IsReader r)
      (m : Moved io r.buffer_size (start n into r) d')
      (stops : (out : Bytes) (t : Reader S) → next 0 out t ≡ some (ok out, t))
      (goes_on : (b : ℕ) (chunk : Bytes) (stream : S)
        → 0 < d'.num_bytes
        → Reads
            (next d'.num_bytes d'.into (refilled r (b ∷ chunk) stream))
            d'.num_bytes
            d'.into
            (refilled r (b ∷ chunk) stream)) where
    refill_lem :
        (chunk : Bytes)
        → (io.read d'.stream r.buffer_size).0 ≡ chunk
        → 0 < d'.num_bytes
        → d'.into ++ io.remaining d'.stream ≡ into ++ contents io r
        → length d'.into + d'.num_bytes ≡ length into + n
        → Reads
            (refill io next d'
              (record r { position = r.position + copy n r })
              chunk
              (io.read d'.stream r.buffer_size).1)
            n
            into
            r
    refill_lem [] e pos all count =
        let over : io.remaining d'.stream ≡ [] = io.at_end d'.stream r.buffer_size v.size e in
        (
          raise eof,
          _,
          refl,
          omega (
            arith,
            ap (λ (t : Bytes). length t) over,
            ap (λ (t : Bytes). length t) all,
            length-append d'.into (io.remaining d'.stream),
            length-append into (contents io r),
            count,
          ),
        )
    refill_lem (b ∷ chunk) e pos all count =
        let (x, r', runs, o) = goes_on b chunk (io.read d'.stream r.buffer_size).1 pos in
        (x, r', runs, transfer n into r d' (b ∷ chunk) x r' e all count o)

    fill_lem :
        Reads (fill io next (record r { position = r.position + copy n r }) (some d')) n into r
    fill_lem = elim (Bool-cases (d'.num_bytes == 0)) [
      | inl over ↦
          (ok d'.into, _, rw over (stops d'.into _), finished n into r d' v m ((==_iff _ _).0 over))
      | inr more ↦
          let pos : 0 < d'.num_bytes = ground arith in
          let used : copy n r ≡ length r.buffer - r.position = omega (arith, unused, pos) in
          let facts = exhausted n into r d' r.buffer_size v used m in
          rw more (refill_lem (io.read d'.stream r.buffer_size).0 refl pos facts.0 facts.1)
    ]
      where
        unused : d'.num_bytes ≤ n - copy n r
        unused = m.less

  read_loop_lem :
      (fuel n : ℕ) (into : Bytes) (r : Reader S)
      → IsReader r
      → n + 1 - min 1 (length r.buffer - r.position) < fuel
      → Reads (read_loop io fuel n into r) n into r
  unfolding read_loop
  read_loop_lem zero n into r v h = absurd (omega arith)
  read_loop_lem (suc fuel) n into r v h = elim (Bool-cases (n == 0)) [
    | inl done ↦
        let none_left : n ≡ 0 = (==_iff n 0).0 done in
        (ok into, r, rw done, (refl, omega (arith, none_left), v, refl))
    | inr more ↦
        let pos : 0 < n = ground arith in
        let (d', runs, m) =
          read_direct_lem io (n + 1) r.buffer_size (start n into r) (omega arith) v.size in
        rw (more, runs)
          (fill_lem (read_loop io fuel) n into r d' v m
            (λ out t. read_loop_zero fuel out t (omega (arith, pos, h)))
            (λ b chunk stream some_left.
              read_loop_lem fuel d'.num_bytes d'.into (refilled r (b ∷ chunk) stream)
                (record { size = v.size; position = omega arith })
                (omega (arith, m.less, pos, h, some_left))))
  ]

  -- A read of `n` bytes ends. It returns the next `n` bytes and leaves those that follow, or it
  -- throws EOFException, if fewer are to come.
  pub read_exact_lem : (n : ℕ) (r : Reader S) → IsReader r → Reads (read_exact io n r) n [] r
  unfolding read_exact
  read_exact_lem n r v = read_loop_lem (n + 2) n [] r v (omega arith)
