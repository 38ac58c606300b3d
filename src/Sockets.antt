-- ===== src/Sockets.antt =====
-- The loops over sockets: Connection::write and the search for an address in nandroidfs/
-- Connection.cpp, with ClientHandler::write of nandroid_daemon/src/ClientHandler.cpp, which is the
-- same loop. `send`, `socket` and `connect` are parameters.
pub mod Send
pub mod Addresses
pub mod Lifetime
mod Tests
use nandroidfs.Base.{
  ℕ, zero, suc, Bool, Option, none, some, List, [], ◌∷◌, ◌++◌, Bytes, drop, if◌then◌else◌,
}
use nandroidfs.Exec.{Exec, Result, ok, raise, socket_error, runtime, stuck}

-- What `send` returns: -1 with an error, or how many bytes it took.
pub data Sent : Type 0 where
  send_failed : ℕ → Sent
  taken : ℕ → Sent

module _ {S : Type 0} (send : Bytes → S → Sent × S) where
  -- The loop on fuel; `stuck` means that the fuel ran out.
  unfoldable pub write_all : ℕ → Bytes → Exec S Unit
  write_all fuel [] s = (ok tt, s)
  write_all zero (b ∷ buffer) s = (raise stuck, s)
  write_all (suc fuel) (b ∷ buffer) s = elim (send (b ∷ buffer) s).0 [
    | send_failed e ↦ (raise (socket_error e), (send (b ∷ buffer) s).1)
    | taken result ↦ write_all fuel (drop result (b ∷ buffer)) (send (b ∷ buffer) s).1
  ]

-- `connect_socket`, and the sockets that were opened and closed.
pub record Search (K : Type 0) : Type 0 where
  pub connect_socket : Option K
  pub opened : List K
  pub closed : List K

abbrev pub no_socket : {K : Type 0} → Search K
no_socket = record { connect_socket = none; opened = []; closed = [] }

-- `socket` gives an error or a socket for an address, `connect` whether it connects.
module _ {A K : Type 0} (socket : A → Result K) (connect : K → Bool) where
  abbrev pub open_socket : K → Search K → Search K
  open_socket k t = record t { connect_socket = some k; opened = t.opened ++ (k ∷ []) }

  abbrev pub close_socket : K → Search K → Search K
  close_socket k t = record t { closed = t.closed ++ (k ∷ []) }

  -- The loop over the addresses: a socket that does not connect is closed, but stays in
  -- `connect_socket`.
  unfoldable pub try_addresses : List A → Search K → Result Unit × Search K
  try_addresses [] t = (ok tt, t)
  try_addresses (address ∷ addresses) t = elim (socket address) [
    | raise e ↦ (raise e, t)
    | ok k ↦
        let rest = try_addresses addresses (close_socket k (open_socket k t)) in
        if connect k then (ok tt, open_socket k t) else rest
  ]

  abbrev pub check_socket : Result Unit × Search K → Result (K × List K)
  check_socket (raise e, t) = raise e
  check_socket (ok u, t) = elim t.connect_socket [
    | none ↦ raise runtime
    | some k ↦ ok (k, t.closed)
  ]

  -- `conn_sock`, and the sockets that were closed.
  unfoldable pub connect_any : List A → Result (K × List K)
  unfolding try_addresses
  connect_any addresses = check_socket (try_addresses addresses no_socket)
