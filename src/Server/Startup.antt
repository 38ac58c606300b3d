-- ===== src/Server/Startup.antt =====
-- nandroid_daemon/src/main.cpp: what a start of the daemon depends on.
use nandroidfs.Base.{arith, ◌≡◌}
use nandroidfs.Server.{listen_and_serve, Kernel, Server, Returned, start_server, throw_unless}
use nandroidfs.Daemon.Posix.{Posix}

module _ {F : Type 0} (os : Posix F) where
  -- What the daemon does does not depend on what `bind` and `listen` return.
  pub start_server_unchecked :
      (k : Kernel) (bind listen : Returned) (s : Server F)
      → start_server os (record k { bind = bind; listen = listen }) s ≡ start_server os k s
  unfolding start_server listen_and_serve throw_unless
  start_server_unchecked k bind listen s = ground arith
