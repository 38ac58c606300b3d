-- ===== src/Server/Tests.antt =====
-- A daemon whose port is taken.
use nandroidfs.Base.{◌≡◌, [], ◌∷◌, none}
use nandroidfs.Daemon.Disk.{Disk, one_file}
use nandroidfs.Server.{Kernel, Server, minus_one, value, start_server}
use nandroidfs.Server.Startup.{start_server_unchecked}

abbrev willing : Kernel
willing = record {
  socket = value 3;
  bind = value 0;
  listen = value 0;
  accept = value 4;
  incoming = 1 ∷ 2 ∷ 3 ∷ 4 ∷ [];
}

abbrev port_taken : Kernel
port_taken = record {
  socket = value 3;
  bind = minus_one 98;
  listen = minus_one 98;
  accept = value 4;
  incoming = 1 ∷ 2 ∷ 3 ∷ 4 ∷ [];
}

abbrev fresh_server : Server Disk
fresh_server = record {
  printed = [];
  closed = [];
  sent = [];
  served = none;
  fs = record { content = []; position = 0 };
}

start_server_unchecked_example :
    start_server one_file port_taken fresh_server ≡ start_server one_file willing fresh_server
start_server_unchecked_example =
    start_server_unchecked one_file willing (minus_one 98) (minus_one 98) fresh_server
