-- ===== src/Daemon/Settles/Transfer.antt =====
-- The loops of reading and writing end: a read takes bytes or ends the loop, and so does a write
-- that the system lets through.
use nandroidfs.Exec.{undefined, Exec}
use nandroidfs.Daemon.Buffer.{ensured_room, grown, ensured}
use nandroidfs.Daemon.Settles.{
  Settles-throw, read_with, continue-Settles, continue, stuck, raise, Settles-call, Settles-if,
  Settles-pure, Settles-store, Settles-ensure, Settles, Settles-bind, Settles-then, settles_rules,
}
use nandroidfs.Base.{
  int_length_le, ◌^◌, int_length, length-drop, length-take, length-append, ltb→lt, inl, inr,
  Bool-cases, ◌≢◌, length, le→ltb_false, arith, ◌<◌, ◌≤◌, drop, ◌+◌, ◌-◌, ℕ, zero, suc, ◌≡◌, refl,
  Bytes, [], ◌∷◌, Option, none, some, take, ltb,
}
use nandroidfs.Wire.Shrink.{length-read_exact}
use nandroidfs.Wire.{read_exact}
use nandroidfs.Daemon.Posix.{receive, slice, store, Sys, failed, done, Posix, Handler, call}
use nandroidfs.Daemon.Transfer.{
  write_sought, act_write_file, moved, broke, Ended, read_round, read_loop, answer_read,
  read_sought, act_read_file, write_round, write_loop, answer_write, write_data,
}
use nandroidfs.Protocol.Requests.{ReadHandleArgs, WriteHandleInitArgs}

-- What POSIX says of `write` on a file: of a request for some bytes, at least one is written.
pub record Progress {F : Type 0} (os : Posix F) : Type 0 where
  pub writes :
      (handle : ℕ) (bytes : Bytes) (fs : F) (n : ℕ)
      → (os.write_fd handle bytes fs).0 ≡ done n
      → 0 < length bytes
      → 0 < n

module _ {F : Type 0} (os : Posix F) where
  read_round-Settles :
      (next : ℕ → Exec (Handler F) Ended) (total : ℕ) (r : Sys Bytes)
      → ((n : ℕ) → total < n → Settles (next n))
      → Settles (read_round os next total r)
  unfolding read_round
  read_round-Settles next total (failed e) h = search settles_rules
  read_round-Settles next total (done []) h = search settles_rules
  read_round-Settles next total (done (b ∷ chunk)) h =
      Settles-then _ _ (Settles-store total (b ∷ chunk)) (h _ (omega arith))

  -- As many rounds as bytes are enough, since each round but the last takes a byte at least.
  read_loop-Settles :
      (fuel handle n total : ℕ) → n ≤ fuel + total → Settles (read_loop os fuel handle n total)
  unfolding read_loop
  read_loop-Settles zero handle n total h = rw (le→ltb_false total n (omega arith)) (Settles-pure _)
  read_loop-Settles (suc fuel) handle n total h =
      Settles-if (ltb total n) _ _
        (Settles-if (ltb total (2 ^ 31)) _ _
          (Settles-bind _ _ (Settles-call _) λ r.
            read_round-Settles _ total r λ m lt. read_loop-Settles fuel handle n m (omega arith))
          (Settles-throw undefined (λ p. ground arith)))
        (Settles-pure _)

  answer_read-Settles : (ended : Ended) → Settles (answer_read os ended)
  unfolding answer_read
  answer_read-Settles (broke e) = search settles_rules
  answer_read-Settles (moved n) = search settles_rules depth 7

  read_sought-Settles : (args : ReadHandleArgs) (r : Sys ℕ) → Settles (read_sought os args r)
  unfolding read_sought
  read_sought-Settles args (failed e) = search settles_rules
  read_sought-Settles args (done offset) = Settles-then _ _ (Settles-ensure args.data_len) (
      Settles-bind _ _ (read_loop-Settles args.data_len args.handle args.data_len 0 (omega arith))
        answer_read-Settles)

  pub act_read_file-Settles : (args : ReadHandleArgs) → Settles (act_read_file os args)
  unfolding act_read_file
  act_read_file-Settles args = search (settles_rules, read_sought-Settles)

  write_round-settles :
      (next : ℕ → Exec (Handler F) Ended) (total : ℕ) (r : Sys ℕ) (s : Handler F)
      → ((k : ℕ) → r ≡ done k → (next (total + k) s).0 ≢ raise stuck)
      → (write_round os next total r s).0 ≢ raise stuck
  unfolding write_round
  write_round-settles next total (failed e) s h = λ p. cc
  write_round-settles next total (done k) s h = h k refl

  answer_write-Settles : (ended : Ended) → Settles (answer_write os ended)
  unfolding answer_write
  answer_write-Settles (broke e) = search settles_rules
  answer_write-Settles (moved n) = search settles_rules

  module _ (progress : Progress os) where
    write_loop-settles :
        (fuel handle n total : ℕ) (s : Handler F)
        → n ≤ fuel + total
        → n ≤ length s.rw_buffer
        → (write_loop os fuel handle n total s).0 ≢ raise stuck
    unfolding write_loop slice call
    write_loop-settles zero handle n total s h k = rw (le→ltb_false total n (omega arith)) (λ p. cc)
    write_loop-settles (suc fuel) handle n total s h k = elim (Bool-cases (ltb total n)) [
      | inr over ↦ rw over (λ p. cc)
      | inl more ↦
          let bytes = take (n - total) (drop total s.rw_buffer) in
          let lt : total < n = ltb→lt total n more in
          let full : 0 < length bytes = omega (
            arith,
            lt,
            k,
            length-take (n - total) (drop total s.rw_buffer),
            length-drop total s.rw_buffer,
          ) in
          let round =
            write_round-settles (write_loop os fuel handle n) total
              (os.write_fd handle bytes s.fs).0
              (record s { fs = (os.write_fd handle bytes s.fs).1 })
              λ m e.
                write_loop-settles fuel handle n (total + m) _
                  (omega (arith, progress.writes handle bytes s.fs m e full)) k in
          elim (Bool-cases (ltb total (2 ^ 31))) [
            | inl below ↦ rw (more, below) round
            | inr over ↦ rw (more, over) (λ p. cc)
          ]
    ]

    write_data-settles :
        (args : WriteHandleInitArgs) (bytes : Bytes) (s : Handler F)
        → length bytes ≡ int_length args.data_len
        → args.data_len ≤ length s.rw_buffer
        → (write_data os args bytes s).0 ≢ raise stuck
    unfolding write_data store
    write_data-settles args bytes s h room =
        continue-Settles _ _ _
          (write_loop-settles args.data_len args.handle args.data_len 0 _ (omega arith) (
            omega (
              arith,
              h,
              int_length_le args.data_len,
              room,
              length-append bytes (drop (0 + length bytes) s.rw_buffer),
              length-drop (0 + length bytes) s.rw_buffer,
            )))
          answer_write-Settles

    received-settles :
        (args : WriteHandleInitArgs) (o : Option (Bytes × Bytes)) (s : Handler F)
        → ((a : Bytes) (rest : Bytes) → o ≡ some (a, rest) → length a ≡ int_length args.data_len)
        → args.data_len ≤ length s.rw_buffer
        → (continue
            (read_with o s.port).0
            (write_data os args)
            (record s { port = (read_with o s.port).1 })).0
          ≢ raise stuck
    received-settles args none s h room = λ p. ground arith
    received-settles args (some (a, rest)) s h room =
        write_data-settles args a _ (h a rest refl) room

    write_sought-Settles :
        (args : WriteHandleInitArgs) (r : Sys ℕ) → Settles (write_sought os args r)
    unfolding write_sought receive
    write_sought-Settles args (failed e) = search settles_rules
    write_sought-Settles args (done offset) = record {
      at = λ s. rw (ensured args.data_len s) (
          received-settles args (read_exact (int_length args.data_len) s.port.input)
            (record s { rw_buffer = grown args.data_len s })
            (length-read_exact (int_length args.data_len) s.port.input)
            (ensured_room args.data_len s));
    }

    pub act_write_file-Settles : (args : WriteHandleInitArgs) → Settles (act_write_file os args)
    unfolding act_write_file
    act_write_file-Settles args = search (settles_rules, write_sought-Settles)
