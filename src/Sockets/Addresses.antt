-- ===== src/Sockets/Addresses.antt =====
-- nandroidfs/Connection.cpp: the addresses of the daemon, tried in turn.
use nandroidfs.Sockets.{no_socket, check_socket, Search, try_addresses, connect_any}
use nandroidfs.Base.{
  append-nil, append_assoc, map, All, ◌≡◌, ap, ◌∙◌, Bool, true, false, some, List, [], ◌∷◌, ◌++◌,
}
use nandroidfs.Exec.{Result, ok}

abbrev pub last_of : {K : Type 0} → K → List K → K
last_of k [] = k
last_of k (j ∷ ks) = last_of j ks

module _ {A K : Type 0} (connect : K → Bool) (sock : A → K) where
  abbrev opens : A → Result K
  opens a = ok (sock a)

  abbrev Refuses : A → Type 0
  Refuses a = connect (sock a) ≡ false

  -- Addresses that do not connect leave the last of their sockets behind, closed.
  try_addresses-refused :
      (address : A) (addresses more : List A) (t : Search K)
      → Refuses address
      → All Refuses addresses
      → try_addresses opens connect ((address ∷ addresses) ++ more) t
        ≡ try_addresses opens connect more (record {
          connect_socket = some (last_of (sock address) (map sock addresses));
          opened = t.opened ++ (sock address ∷ map sock addresses);
          closed = t.closed ++ (sock address ∷ map sock addresses);
        })
  unfolding try_addresses
  try_addresses-refused address [] more t first h = rw first
  try_addresses-refused address (next ∷ addresses) more t first h = rw first (
      try_addresses-refused next addresses more
        (record {
          connect_socket = some (sock address);
          opened = t.opened ++ (sock address ∷ []);
          closed = t.closed ++ (sock address ∷ []);
        })
        h.0 h.1
      ∙ rw (
        append_assoc t.opened (sock address ∷ []) (sock next ∷ map sock addresses),
        append_assoc t.closed (sock address ∷ []) (sock next ∷ map sock addresses),
      ))

  -- If there is an address, every address gives a socket and none of them connects, the search
  -- throws nothing: it leaves the last socket as the connection, closed like the others.
  pub connect_any_refused :
      (address : A) (addresses : List A)
      → Refuses address
      → All Refuses addresses
      → connect_any opens connect (address ∷ addresses)
        ≡ ok (last_of (sock address) (map sock addresses), sock address ∷ map sock addresses)
  unfolding connect_any
  connect_any_refused address addresses first h =
      let start : Search K = no_socket in
      let tried = try_addresses-refused address addresses [] start first h in
      ap (check_socket opens connect) (rw (append-nil addresses) at tried)

  -- The first address that connects is used, after the others before it were closed.
  connect_any_connects :
      (address good : A) (addresses more : List A)
      → Refuses address
      → All Refuses addresses
      → connect (sock good) ≡ true
      → connect_any opens connect ((address ∷ addresses) ++ (good ∷ more))
        ≡ ok (sock good, sock address ∷ map sock addresses)
  unfolding connect_any try_addresses
  connect_any_connects address good addresses more first h connects =
      let start : Search K = no_socket in
      rw (try_addresses-refused address addresses (good ∷ more) start first h, connects)
