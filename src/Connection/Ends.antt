-- ===== src/Connection/Ends.antt =====
-- The loop over the entries of a listing in nandroidfs/Connection.cpp ends on every stream: each
-- turn takes a byte off it.
use nandroidfs.Exec.{runtime, read_with, Port, Exec, Result, ok, raise, stuck, ◌>>=◌, continue}
use nandroidfs.Daemon.Settles.{
  Settles-throw, continue-Settles, Settles, Settles-pure, Settles-bind, Settles-then,
}
use nandroidfs.Connection.Listing.{
  consume_named, consume_cached, receive_entry, entry_turn, receive_entries, consume_listing,
  receive_listing, list_remote, req_list_file_stats,
}
use nandroidfs.Base.{
  refl, none, some, inr, inl, Option-cases, [], ◌++◌, ◌≡◌, ◌≢◌, ◌<◌, ◌∷◌, ◌≤◌, List, length, Bytes,
  Option, ℕ, zero, suc, arith,
}
use nandroidfs.Wire.Shrink.{read_byte-shorter, Shrinks-read_utf8_string, Shrinks}
use nandroidfs.Protocol.{response_status, list_directory, ResponseStatus, success, no_more_entries}
use nandroidfs.Conversion.{unix_path_to_win32, win32_path_to_unix, WideString, Unicode}
use nandroidfs.Wire.{read_byte, read_utf8_string, Get}
use nandroidfs.Protocol.Shrink.{Shrinks-file_stat}
use nandroidfs.Path.{get_full_path}
use nandroidfs.Protocol.Responses.{read_file_stat, FileStat}
use nandroidfs.Connection.Settles.{
  lookup_stat-Settles, request_of_path-Settles, cache_stat-Settles, client_rules,
}
use nandroidfs.Connection.{
  receive_status, cache_stat, consume_stat, lookup_listing, cache_listing, pure, Client, receive,
}

-- No byte is put back on the stream.
record Lessens {A : Type 0} (m : Exec Client A) : Type 0 where
  at : (c : Client) → length (m c).1.port.input ≤ length c.port.input

received-lessens :
    {A : Type 0} (o : Option (A × Bytes)) (p : Port)
    → ((a : A) (rest : Bytes) → o ≡ some (a, rest) → length rest ≤ length p.input)
    → length (read_with o p).1.input ≤ length p.input
received-lessens none p h = omega arith
received-lessens (some (a, rest)) p h = h a rest refl

module _ {A : Type 0} where
  Lessens-pure : (a : A) → Lessens (pure {S = Client} a)
  Lessens-pure a = record { at = λ c. omega arith }

  Lessens-receive : (get : Get A) → Shrinks get → Lessens (receive get)
  unfolding receive
  Lessens-receive get h = record {
    at = λ c. received-lessens (get c.port.input) c.port (h.at c.port.input);
  }

module _ {A B : Type 0} where
  continue-Lessens :
      (r : Result A) (f : A → Exec Client B) (c : Client)
      → ((a : A) → Lessens (f a))
      → length (continue r f c).1.port.input ≤ length c.port.input
  continue-Lessens (ok a) f c h = (h a).at c
  continue-Lessens (raise e) f c h = omega arith

  Lessens-bind :
      (m : Exec Client A) (f : A → Exec Client B)
      → Lessens m
      → ((a : A) → Lessens (f a))
      → Lessens (m >>= f)
  Lessens-bind m f hm hf = record {
    at = λ c. omega (arith, hm.at c, continue-Lessens (m c).0 f (m c).1 hf);
  }

module _ (unicode : Unicode) (steady : ℕ → ℕ) where
  cache_stat-Lessens : (path : Bytes) (stat : FileStat) → Lessens (cache_stat steady path stat)
  unfolding cache_stat
  cache_stat-Lessens path stat = record { at = λ c. omega arith }

  consume_stat-Lessens : (stat : FileStat) (name : WideString) → Lessens (consume_stat stat name)
  unfolding consume_stat
  consume_stat-Lessens stat name = record { at = λ c. omega arith }

  consume_stat-Settles : (stat : FileStat) (name : WideString) → Settles (consume_stat stat name)
  unfolding consume_stat
  consume_stat-Settles stat name = record { at = λ c e. cc }

  consume_named-Lessens :
      (stat : FileStat) (name : Option WideString) → Lessens (consume_named stat name)
  unfolding consume_named
  consume_named-Lessens stat none = record { at = λ c. omega arith }
  consume_named-Lessens stat (some name) = consume_stat-Lessens stat name

  consume_named-Settles :
      (stat : FileStat) (name : Option WideString) → Settles (consume_named stat name)
  unfolding consume_named
  consume_named-Settles stat none = Settles-throw runtime (λ p. ground arith)
  consume_named-Settles stat (some name) = consume_stat-Settles stat name

  receive_entry-Lessens : (path : Bytes) → Lessens (receive_entry unicode steady path)
  unfolding receive_entry
  receive_entry-Lessens path =
      Lessens-bind _ _ (Lessens-receive read_utf8_string Shrinks-read_utf8_string) λ name.
        Lessens-bind _ _ (Lessens-receive read_file_stat Shrinks-file_stat) λ stat.
          Lessens-bind _ _ (cache_stat-Lessens (get_full_path path name) stat) λ _.
            Lessens-bind _ _ (consume_named-Lessens stat (unix_path_to_win32 unicode name))
              λ _. Lessens-pure name

  receive_entry-Settles : (path : Bytes) → Settles (receive_entry unicode steady path)
  unfolding receive_entry
  receive_entry-Settles path =
      search (client_rules, cache_stat-Settles, consume_named-Settles) depth 8

  goes_on :
      (r : Result Bytes) (next : Bytes → Exec Client (List Bytes)) (c : Client)
      → r ≢ raise stuck
      → ((name : Bytes) → (next name c).0 ≢ raise stuck)
      → (continue r next c).0 ≢ raise stuck
  goes_on (ok name) next c h k = k name
  goes_on (raise e) next c h k = λ p. ground arith

  -- A turn that goes on with no more bytes than it was given ends if the next does.
  entry_turn_ends :
      (next : List Bytes → Exec Client (List Bytes)) (path : Bytes) (entries : List Bytes)
      (status : ResponseStatus) (c : Client)
      → ((more : List Bytes) (d : Client)
          → length d.port.input ≤ length c.port.input
          → (next more d).0 ≢ raise stuck)
      → (entry_turn unicode steady next path entries status c).0 ≢ raise stuck
  unfolding entry_turn
  entry_turn_ends next path entries no_more_entries c h = λ p. ground arith
  entry_turn_ends next path entries success c h =
      goes_on (receive_entry unicode steady path c).0 (λ name. next (entries ++ (name ∷ [])))
        (receive_entry unicode steady path c).1 ((receive_entry-Settles path).at c)
        (λ name. h (entries ++ (name ∷ [])) _ ((receive_entry-Lessens path).at c))
  entry_turn_ends next path entries _ c h = h entries c (omega arith)

  receive_entries_ends :
      (fuel : ℕ) (path : Bytes) (entries : List Bytes) (c : Client)
      → length c.port.input < fuel
      → (receive_entries unicode steady fuel path entries c).0 ≢ raise stuck
  unfolding receive_entries receive_status receive
  receive_entries_ends zero path entries c h = absurd (omega arith)
  receive_entries_ends (suc fuel) path entries c h = elim (Option-cases (read_byte c.port.input)) [
    | inl e ↦ rw (e, read_with) (λ p. cc)
    | inr ((b, rest), e) ↦
        rw (e, read_with)
          (entry_turn_ends (receive_entries unicode steady fuel path) path entries
            (response_status b) (record c { port = record c.port { input = rest } })
            (λ more d k.
              receive_entries_ends fuel path more d
                (omega (arith, read_byte-shorter c.port.input b rest e))))
  ]

  consume_cached-Settles :
      (name : Bytes) (cached : Option FileStat)
      → Settles (consume_cached unicode steady name cached)
  consume_cached-Settles name none = Settles-pure tt
  consume_cached-Settles name (some stat) = consume_named-Settles stat _

  consume_listing-Settles :
      (path : Bytes) (names : List Bytes) → Settles (consume_listing unicode steady path names)
  unfolding consume_listing
  consume_listing-Settles path [] = Settles-pure tt
  consume_listing-Settles path (name ∷ names) =
      Settles-bind _ _ (lookup_stat-Settles steady (get_full_path path name)) λ cached.
        Settles-then _ _ (consume_cached-Settles name cached) (consume_listing-Settles path names)

  lookup_listing-Settles : (path : Bytes) → Settles (lookup_listing steady path)
  unfolding lookup_listing
  lookup_listing-Settles path = record { at = λ c e. cc }

  cache_listing-Settles :
      (path : Bytes) (names : List Bytes) → Settles (cache_listing steady path names)
  unfolding cache_listing
  cache_listing-Settles path names = record { at = λ c e. cc }

  receive_listing-Settles :
      (path : Bytes) (status : ResponseStatus)
      → Settles (receive_listing unicode steady path status)
  unfolding receive_listing
  receive_listing-Settles path success = record {
    at = λ c.
        continue-Settles _ _ _
          (receive_entries_ends (suc (length c.port.input)) path [] c (omega arith))
          (λ names. Settles-then _ _ (cache_listing-Settles path names) (Settles-pure success));
  }
  receive_listing-Settles path _ = Settles-pure _

  list_remote-Settles :
      (path : Bytes) (cached : Option (List Bytes))
      → Settles (list_remote unicode steady path cached)
  unfolding list_remote
  list_remote-Settles path (some names) =
      Settles-then _ _ (consume_listing-Settles path names) (Settles-pure success)
  list_remote-Settles path none =
      Settles-bind _ _ (request_of_path-Settles list_directory path) (receive_listing-Settles path)

  pub req_list_file_stats-Settles :
      (path : WideString) → Settles (req_list_file_stats unicode steady path)
  unfolding req_list_file_stats
  req_list_file_stats-Settles path =
      Settles-bind _ _ (lookup_listing-Settles (win32_path_to_unix unicode path))
        (list_remote-Settles (win32_path_to_unix unicode path))
