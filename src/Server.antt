-- ===== src/Server.antt =====
-- nandroid_daemon/src/main.cpp: the daemon from its socket to the end of its one client. What the
-- calls on sockets return is the parameter `Kernel`.
pub mod Startup
mod Tests
use nandroidfs.Base.{ℕ, suc, Bool, Option, none, some, List, [], ◌∷◌, ◌++◌, Bytes, length}
use nandroidfs.Exec.{Exec, Result, ok, raise, socket_error, pure, ◌>>=◌, ◌>>◌}
use nandroidfs.Text.{codes}
use nandroidfs.Wire.{read_u32, write_u32}
use nandroidfs.Nandroid.{agent_ready_msg}
use nandroidfs.Daemon.Posix.{Posix, Handler, receive, respond, flush}
use nandroidfs.Daemon.Messages.{handle_messages}

-- An int that a call returns: -1, with `errno`, or not.
pub data Returned : Type 0 where
  minus_one : ℕ → Returned
  value : ℕ → Returned

unfoldable pub throw_unless : Returned → Result ℕ
throw_unless (minus_one errno) = raise (socket_error errno)
throw_unless (value n) = ok n

-- `r == -1`, as the int that it is passed on as.
abbrev pub equals_minus_one : Returned → Returned
equals_minus_one (minus_one errno) = value 1
equals_minus_one (value n) = value 0

-- `incoming` is everything the client sends.
pub record Kernel : Type 0 where
  pub socket : Returned
  pub bind : Returned
  pub listen : Returned
  pub accept : Returned
  pub incoming : Bytes

-- What the daemon has printed, the sockets it has closed, what it has sent, how the client's
-- handler ended, and the file system.
pub record Server (F : Type 0) : Type 0 where
  pub printed : List Bytes
  pub closed : List ℕ
  pub sent : Bytes
  pub served : Option (Result Unit)
  pub fs : F

module _ {F : Type 0} where
  -- The constructor of ClientHandler.
  unfoldable pub accept_handshake : Exec (Handler F) Unit
  accept_handshake = do
    handshake_bytes ← receive read_u32
    respond (write_u32 handshake_bytes)
    flush

  abbrev pub new_handler : Bytes → F → Handler F
  new_handler incoming fs = record {
    port = record { input = incoming; pending = []; sent = [] };
    rw_buffer = [];
    fs = fs;
  }

  abbrev print : Bytes → Exec (Server F) Unit
  print line s = (ok tt, record s { printed = s.printed ++ (line ∷ []) })

  abbrev try_call : Returned → Exec (Server F) ℕ
  try_call r s = (throw_unless r, s)

  -- The catch of `start_server`.
  abbrev closing : ℕ → Result Unit × Server F → Result Unit × Server F
  closing sock (ok u, s) = (ok u, s)
  closing sock (raise e, s) = (raise e, record s { closed = s.closed ++ (sock ∷ []) })

module _ {F : Type 0} (os : Posix F) where
  -- One turn of the loop for each byte and one more is enough.
  unfoldable pub serve_client : Bytes → Exec (Handler F) Unit
  unfolding accept_handshake
  serve_client incoming = do accept_handshake; handle_messages os (suc (suc (length incoming)))

  -- An exception of the handler goes no further; its destructor closes the socket.
  unfoldable pub handle_client : Bytes → ℕ → Exec (Server F) Unit
  handle_client incoming client_sock s =
      let run = serve_client incoming (new_handler incoming s.fs) in
      (
        ok tt,
        record s {
          closed = s.closed ++ (client_sock ∷ []);
          sent = s.sent ++ run.1.port.sent;
          served = some run.0;
          fs = run.1.fs;
        },
      )

  unfoldable pub listen_and_serve : Kernel → Exec (Server F) Unit
  listen_and_serve k = do
    try_call (equals_minus_one k.bind)
    try_call (equals_minus_one k.listen)
    print (codes "Binded successfully to port, awaiting connection")
    print agent_ready_msg
    client_sock ← try_call k.accept
    handle_client k.incoming client_sock

  unfoldable pub start_server : Kernel → Exec (Server F) Unit
  unfolding listen_and_serve
  start_server k = do
    server_sock ← try_call k.socket
    λ s. closing server_sock (listen_and_serve k s)
