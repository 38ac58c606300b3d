-- ===== src/Daemon/Buffer.antt =====
-- The buffer behind `ensure_rw_buffer_size` of nandroid_daemon/src/ClientHandler.cpp.
use nandroidfs.Base.{
  refl, inr, length-replicate, ◌-◌, replicate, length-append, arith, inl, ltb, Bool-cases, length,
  ◌≤◌, Bytes, ◌≡◌, ℕ,
}
use nandroidfs.Exec.{ok}
use nandroidfs.Daemon.Posix.{Handler, ensure_rw_buffer_size}

module _ {F : Type 0} where
  pub ensured_room : (n : ℕ) (s : Handler F) → n ≤ length (ensure_rw_buffer_size n s).1.rw_buffer
  unfolding ensure_rw_buffer_size
  ensured_room n s = elim (Bool-cases (ltb (length s.rw_buffer) n)) [
    | inl small ↦ rw small (
        omega (
          arith,
          length-append s.rw_buffer (replicate (n - length s.rw_buffer) 0),
          length-replicate {A = ℕ} (n - length s.rw_buffer) 0,
        ))
    | inr large ↦ rw large (ground (arith, large))
  ]

  -- The buffer that is at hand behind `ensure_rw_buffer_size`.
  abbrev pub grown : ℕ → Handler F → Bytes
  grown n s = (ensure_rw_buffer_size n s).1.rw_buffer

  pub ensured :
      (n : ℕ) (s : Handler F)
      → ensure_rw_buffer_size n s ≡ (ok tt, record s { rw_buffer = grown n s })
  unfolding ensure_rw_buffer_size
  ensured n s = refl
