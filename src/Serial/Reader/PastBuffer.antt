-- ===== src/Serial/Reader/PastBuffer.antt =====
-- The inner loop of a read, which reads past the buffer.
use nandroidfs.Base.{
  ℕ, zero, suc, ◌+◌, ◌-◌, ◌≤◌, ◌<◌, ◌≡◌, refl, ◌∙◌, arith, some, [], ◌∷◌, ◌++◌, Bytes, length, leb,
  Bool-cases, inl, inr, leb→le, append_assoc, length-append,
}
use nandroidfs.Serial.Reader.{Readable, Direct, read_direct, after_direct}

module _ {S : Type 0} (io : Readable S) where
  -- What the inner loop has done: bytes were moved, and none were lost.
  pub record Moved (size : ℕ) (d d' : Direct S) : Type 0 where
    pub all : d'.into ++ io.remaining d'.stream ≡ d.into ++ io.remaining d.stream
    pub count : length d'.into + d'.num_bytes ≡ length d.into + d.num_bytes
    pub less : d'.num_bytes ≤ d.num_bytes
    pub kept : d.num_bytes < size → d' ≡ d

  abbrev step : Direct S → Bytes → Direct S
  step d chunk = record {
    num_bytes = d.num_bytes - length chunk;
    into = d.into ++ chunk;
    stream = (io.read d.stream d.num_bytes).1;
  }

  pub takes_chunk :
      (s : S) (n : ℕ) (chunk : Bytes)
      → (io.read s n).0 ≡ chunk
      → chunk ++ io.remaining (io.read s n).1 ≡ io.remaining s
  takes_chunk s n chunk e = rw (← e) (io.takes s n)

  Moved-step :
      (size : ℕ) (d : Direct S) (chunk : Bytes) (d' : Direct S)
      → (io.read d.stream d.num_bytes).0 ≡ chunk
      → size ≤ d.num_bytes
      → Moved size (step d chunk) d'
      → Moved size d d'
  Moved-step size d chunk d' e large m =
      let took = takes_chunk d.stream d.num_bytes chunk e in
      let fits : length chunk ≤ d.num_bytes = rw (← e) (io.at_most d.stream d.num_bytes) in
      record {
        all = m.all ∙ rw (append_assoc, took);
        count = omega (arith, m.count, length-append d.into chunk, fits);
        less = omega (arith, m.less);
        kept = λ small. absurd (omega arith);
      }

  Moved-end :
      (size : ℕ) (d : Direct S)
      → (io.read d.stream d.num_bytes).0 ≡ []
      → size ≤ d.num_bytes
      → Moved size d (record d { stream = (io.read d.stream d.num_bytes).1 })
  Moved-end size d e large =
      let took = takes_chunk d.stream d.num_bytes [] e in
      record {
        all = rw took;
        count = refl;
        less = omega arith;
        kept = λ small. absurd (omega arith);
      }

  pub read_direct_lem :
      (fuel size : ℕ) (d : Direct S)
      → d.num_bytes < fuel
      → 0 < size
      → (d' : Direct S) × (read_direct io fuel size d ≡ some d') × Moved size d d'
  unfolding read_direct
  read_direct_lem zero size d h pos = absurd (omega arith)
  read_direct_lem (suc fuel) size d h pos = elim (Bool-cases (leb size d.num_bytes)) [
    | inr small ↦
        (d, rw small, record { all = refl; count = refl; less = omega arith; kept = λ _. refl })
    | inl large ↦ rw large (
        go (io.read d.stream d.num_bytes).0 refl (leb→le size d.num_bytes large)
          λ c lt. read_direct_lem fuel size (step d c) lt pos)
  ]
    where
      go :
          (chunk : Bytes)
          → (io.read d.stream d.num_bytes).0 ≡ chunk
          → size ≤ d.num_bytes
          → ((c : Bytes)
              → d.num_bytes - length c < fuel
              → (d' : Direct S) × (read_direct io fuel size (step d c) ≡ some d')
                × Moved size (step d c) d')
          → (d' : Direct S) × (after_direct io
                (read_direct io fuel size)
                d
                chunk
                (io.read d.stream d.num_bytes).1
              ≡ some d')
            × Moved size d d'
      go [] e large ih = (_, refl, Moved-end size d e large)
      go (b ∷ chunk) e large ih =
          let (d', runs, m) = ih (b ∷ chunk) (omega arith) in
          (d', runs, Moved-step size d (b ∷ chunk) d' e large m)
