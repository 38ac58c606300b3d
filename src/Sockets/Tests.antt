-- ===== src/Sockets/Tests.antt =====
-- A socket that takes two bytes at a time, and two addresses of which none answers.
use nandroidfs.Sockets.Lifetime.{Network, Winsock}
use nandroidfs.Base.{
  true, ◌≡◌, refl, ℕ, min, Bool, false, [], ◌∷◌, ◌++◌, Bytes, take, length, arith,
}
use nandroidfs.Exec.{ok}
use nandroidfs.Sockets.{Sent, taken, write_all, connect_any}
use nandroidfs.Sockets.Send.{took, IsWritten, write_all-IsWritten}
use nandroidfs.Sockets.Addresses.{connect_any_refused}

-- The state is what was sent.
abbrev two_at_a_time : Bytes → Bytes → Sent × Bytes
two_at_a_time bytes sent = (taken (min 2 (length bytes)), sent ++ take (min 2 (length bytes)) bytes)

write_all-IsWritten_example :
    IsWritten two_at_a_time
      (λ sent. sent)
      (1 ∷ 2 ∷ 3 ∷ [])
      []
      (write_all two_at_a_time 3 (1 ∷ 2 ∷ 3 ∷ []) [])
write_all-IsWritten_example =
    write_all-IsWritten two_at_a_time (λ sent. sent) 3 (1 ∷ 2 ∷ 3 ∷ []) []
      (λ b bytes s. took (min 2 (length (b ∷ bytes))) (omega arith) (omega arith) refl)
      (omega arith)

abbrev no_answer : ℕ → Bool
no_answer k = false

connect_any_refused_example :
    connect_any (λ (a : ℕ). ok a) no_answer (7 ∷ 8 ∷ []) ≡ ok (8, 7 ∷ 8 ∷ [])
connect_any_refused_example =
    connect_any_refused no_answer (λ (a : ℕ). a) 7 (8 ∷ []) refl (refl, tt)

-- A daemon that hangs up inside the handshake.
abbrev hangs_up : Network ℕ ℕ
hangs_up = record {
  startup = 0;
  getaddrinfo = 0;
  addresses = 7 ∷ [];
  socket = λ a. ok a;
  connect = λ k. true;
  incoming = λ k. 0xFA ∷ 0xFE ∷ [];
}

abbrev idle : Winsock
idle = record { startups = 0; open_sockets = 0 }
