-- ===== src/Sockets/Lifetime.antt =====
-- The constructor and the destructor of Connection (nandroidfs/Connection.cpp): WSAStartup, the
-- address of the daemon, the handshake, and what is undone when one of them fails.
use nandroidfs.Base.{
  none, some, Option, length, ◌+◌, ◌≡◌, true, false, Bool, ℕ, zero, suc, ◌-◌, List, Bytes,
}
use nandroidfs.Exec.{Exception, Result, ok, raise, socket_error}
use nandroidfs.Connection.{Client, handshake}
use nandroidfs.Sockets.{Search, no_socket, try_addresses, check_socket}

-- Nonzero is the code of an error (nandroidfs/WinSockException.cpp).
unfoldable pub throw_if_nonzero : ℕ → Result Unit
throw_if_nonzero zero = ok tt
throw_if_nonzero (suc n) = raise (socket_error (suc n))

-- What the calls of Winsock return, and what a peer sends.
pub record Network (A K : Type 0) : Type 0 where
  pub startup : ℕ
  pub getaddrinfo : ℕ
  pub addresses : List A
  pub socket : A → Result K
  pub connect : K → Bool
  pub incoming : K → Bytes

-- How often Winsock was started and not cleaned up, and how many sockets are open.
pub record Winsock : Type 0 where
  pub startups : ℕ
  pub open_sockets : ℕ

module _ {A K : Type 0} (net : Network A K) where
  -- The handshake on a socket.
  abbrev pub greeting : Client → K → Result Unit × Client
  greeting c k = handshake (record c { port = record c.port { input = net.incoming k } })

  -- The sockets that a search has opened and not closed.
  abbrev pub left_over : Search K → ℕ
  left_over t = length t.opened - length t.closed

  abbrev pub greeted : K → Result Unit × Client → Result (K × Client)
  greeted k (ok a, c) = ok (k, c)
  greeted k (raise e, c) = raise e

  abbrev pub checked : Client → Result (K × List K) → Result (K × Client)
  checked c (raise e) = raise e
  checked c (ok (k, closed)) = greeted k (greeting c k)

  -- Nothing behind the search opens or closes a socket.
  abbrev pub connected : Client → Result Unit × Search K → Result (K × Client) × ℕ
  connected c search = (checked c (check_socket net.socket net.connect search), left_over search.1)

  abbrev pub resolved : Client → Result Unit → Result (K × Client) × ℕ
  resolved c (raise e) = (raise e, 0)
  resolved c (ok a) = connected c (try_addresses net.socket net.connect net.addresses no_socket)

  -- The body of the try block, and how many sockets it leaves open.
  unfoldable pub establish : Client → Result (K × Client) × ℕ
  establish c = resolved c (throw_if_nonzero net.getaddrinfo)

  -- Any exception is thrown on behind WSACleanup.
  abbrev pub caught : Result (K × Client) × ℕ → Winsock → Result (K × Client) × Winsock
  caught (raise e, n) w =
      (raise e, record { startups = w.startups - 1; open_sockets = w.open_sockets + n })
  caught (ok conn, n) w = (ok conn, record w { open_sockets = w.open_sockets + n })

  abbrev pub started : Client → Winsock → Result Unit → Result (K × Client) × Winsock
  started c w (raise e) = (raise e, w)
  started c w (ok a) = caught (establish c) (record w { startups = suc w.startups })

  unfoldable pub construct : Client → Winsock → Result (K × Client) × Winsock
  construct c w = started c w (throw_if_nonzero net.startup)

-- ~Connection, in a release build.
unfoldable pub destruct : Winsock → Winsock
destruct w = record { startups = w.startups - 1; open_sockets = w.open_sockets - 1 }

abbrev pub one_if : Bool → ℕ
one_if true = 1
one_if false = 0

module _ {A K : Type 0} (net : Network A K) where
  -- A socket that connects is open.
  abbrev pub opened : K → ℕ
  opened k = one_if (net.connect k)

  pub data IsConstructed (c : Client) (w : Winsock) : Result (K × Client) × Winsock → Type 0 where
    made :
        (k : K) {conn : Client} {v : Winsock}
        → greeting net c k ≡ (ok tt, conn)
        → v.startups ≡ suc w.startups
        → v.open_sockets ≡ w.open_sockets + opened k
        → IsConstructed c w (ok (k, conn), v)
    threw :
        {e : Exception} {v : Winsock}
        → v.startups ≡ w.startups
        → v.open_sockets ≡ w.open_sockets
        → IsConstructed c w (raise e, v)
    left_open :
        (k : K) {e : Exception} {v : Winsock}
        → net.connect k ≡ true
        → (greeting net c k).0 ≡ raise e
        → v.startups ≡ w.startups
        → v.open_sockets ≡ w.open_sockets + 1
        → IsConstructed c w (raise e, v)

  -- Of the sockets of a search only that in `connect_socket` is open, if it connects.
  abbrev spare : Option K → ℕ
  spare none = 0
  spare (some k) = one_if (net.connect k)

  abbrev IsSpare : Result Unit × Search K → Type 0
  IsSpare (ok u, t) = length t.opened ≡ length t.closed + spare t.connect_socket
  IsSpare (raise e, t) = length t.opened ≡ length t.closed
