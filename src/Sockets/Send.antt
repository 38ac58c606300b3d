-- ===== src/Sockets/Send.antt =====
-- The loop around `send`: every byte once and in order, however many are taken at a time.
use nandroidfs.Base.{
  take-take, append-nil, length-drop, take-append-drop, append_assoc, ◌≡◌, sym, ◌∙◌, arith, ◌≤◌, ℕ,
  zero, suc, ◌+◌, [], ◌∷◌, ◌++◌, Bytes, drop, take, length,
}
use nandroidfs.Exec.{Result, ok, raise, socket_error}
use nandroidfs.Sockets.{Sent, send_failed, taken, write_all}

module _ {S : Type 0} (send : Bytes → S → Sent × S) (stream : S → Bytes) where
  -- `send` on a blocking socket: it takes at least one byte and at most all, in their order, or
  -- fails and takes none.
  pub data IsSend (bytes : Bytes) (s : S) : Sent × S → Type 0 where
    took :
        (n : ℕ) {end : S}
        → 1 ≤ n
        → n ≤ length bytes
        → stream end ≡ stream s ++ take n bytes
        → IsSend bytes s (taken n, end)
    refused : (e : ℕ) {end : S} → stream end ≡ stream s → IsSend bytes s (send_failed e, end)

  -- Everything was sent, or what comes before some byte and then an error.
  pub data IsWritten (bytes : Bytes) (s : S) : Result Unit × S → Type 0 where
    all_sent : {end : S} → stream end ≡ stream s ++ bytes → IsWritten bytes s (ok tt, end)
    broken_off :
        (n e : ℕ) {end : S}
        → n ≤ length bytes
        → stream end ≡ stream s ++ take n bytes
        → IsWritten bytes s (raise (socket_error e), end)

  abbrev pub Sends : Type 0
  Sends = (b : ℕ) (bytes : Bytes) (s : S) → IsSend (b ∷ bytes) s (send (b ∷ bytes) s)

  after_taken :
      (n : ℕ) (bytes : Bytes) (s mid : S) (run : Result Unit × S)
      → n ≤ length bytes
      → stream mid ≡ stream s ++ take n bytes
      → IsWritten (drop n bytes) mid run
      → IsWritten bytes s run
  after_taken n bytes s mid _ le e (all_sent done) = all_sent (
      done
      ∙ rw (e, append_assoc (stream s) (take n bytes) (drop n bytes), take-append-drop n bytes))
  after_taken n bytes s mid _ le e (broken_off m err short part) =
      broken_off (n + m) err (omega (arith, short, le, length-drop n bytes)) (
        part
        ∙ rw (
          e,
          append_assoc (stream s) (take n bytes) (take m (drop n bytes)),
          take-take m n bytes,
        ))

  IsWritten-Send :
      (fuel b : ℕ) (bytes : Bytes) (s : S) (run : Sent × S)
      → IsSend (b ∷ bytes) s run
      → ((n : ℕ) (mid : S)
          → 1 ≤ n
          → IsWritten (drop n (b ∷ bytes)) mid (write_all send fuel (drop n (b ∷ bytes)) mid))
      → IsWritten (b ∷ bytes) s (elim run.0 [
        | send_failed e ↦ (raise (socket_error e), run.1)
        | taken result ↦ write_all send fuel (drop result (b ∷ bytes)) run.1
      ])
  IsWritten-Send fuel b bytes s _ (took n {end} some_taken fits e) rest =
      after_taken n (b ∷ bytes) s end _ fits e (rest n end some_taken)
  IsWritten-Send fuel b bytes s _ (refused err e) rest =
      broken_off 0 err (omega arith) (e ∙ sym (append-nil (stream s)))

  -- With as much fuel as bytes, the loop around `send` ends with all the bytes sent once and in
  -- order, or with the error of `send` and the bytes before some point sent, if `send` takes at
  -- least one byte and at most all it is given, in order, or fails.
  pub write_all-IsWritten :
      (fuel : ℕ) (bytes : Bytes) (s : S)
      → Sends
      → length bytes ≤ fuel
      → IsWritten bytes s (write_all send fuel bytes s)
  unfolding write_all
  write_all-IsWritten fuel [] s law enough = all_sent (sym (append-nil (stream s)))
  write_all-IsWritten zero (b ∷ bytes) s law enough = absurd (omega arith)
  write_all-IsWritten (suc fuel) (b ∷ bytes) s law enough =
      IsWritten-Send fuel b bytes s (send (b ∷ bytes) s) (law b bytes s) λ n mid some_taken.
        write_all-IsWritten fuel (drop n (b ∷ bytes)) mid law
          (omega (arith, enough, some_taken, length-drop n (b ∷ bytes)))
