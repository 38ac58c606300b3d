-- ===== src/Daemon/Tests.antt =====
-- The daemon over a disk with one file: a concrete file system, and conversations with it.
use nandroidfs.Daemon.Disk.{Disk, one_file}
use nandroidfs.Daemon.Transfer.{
  write_data, write_loop, write_round, answer_write, act_read_file, read_sought, read_loop,
  read_round, answer_read,
}
use nandroidfs.Daemon.Posix.{
  Posix, Handler, with_input, Sys, failed, done, other, call, ensure_rw_buffer_size, store, slice,
  respond, flush, get_status_from_errno,
}
use nandroidfs.Base.{◌++◌, ap, ℕ, ◌≡◌, ◌≢◌, refl, arith, List, [], ◌∷◌}
use nandroidfs.Exec.{ok, raise, stuck}
use nandroidfs.Protocol.Request.{Request, read_file, write_file, encode}
use nandroidfs.Daemon.Unsought.{refused, handle_messages_unsought}
use nandroidfs.Protocol.Requests.{WriteHandleInitArgs, ReadHandleArgs}
use nandroidfs.Wire.{write_byte, write_u32, write_exact}
use nandroidfs.Daemon.Messages.{handle_messages}
use nandroidfs.Daemon.Settles.Transfer.{Progress}
use nandroidfs.Daemon.Serve.{encode_all, serve, handle_messages-serve}
use nandroidfs.Daemon.Ends.{handle_messages-ends}

abbrev idle : Handler Disk
idle = record {
  port = record { input = []; pending = []; sent = [] };
  rw_buffer = [];
  fs = record { content = 1 ∷ 2 ∷ 3 ∷ []; position = 0 };
}

-- Two bytes are written at 1, and then three are read from 0.
abbrev overwrite : List Request
overwrite =
    write_file (record { handle = 3; offset = 1; data_len = 2 }) (8 ∷ 9 ∷ [])
    ∷ read_file (record { handle = 3; data_len = 5; offset = 0 })
    ∷ []

overwrite_runs : (serve one_file overwrite idle).0 ≡ ok tt
unfolding call ensure_rw_buffer_size write_data store write_loop slice write_round answer_write
    respond write_byte flush act_read_file read_sought read_loop read_round answer_read write_u32
    get_status_from_errno write_exact
overwrite_runs = refl

handle_messages-serve_example :
    handle_messages one_file 3 (with_input (encode_all overwrite) idle)
    ≡ (ok tt, with_input [] (serve one_file overwrite idle).1)
handle_messages-serve_example =
    handle_messages-serve one_file overwrite 3 idle (omega arith)
      (
        (
          record { handle = omega arith; offset = omega arith; data_len = omega arith },
          refl,
          omega arith,
        ),
        (
          (
            record { handle = omega arith; data_len = omega arith; offset = omega arith },
            omega arith,
          ),
          tt,
        ),
      )
      ((_, refl), (tt, tt)) overwrite_runs

-- The count, where there is one.
abbrev count : Sys ℕ → ℕ
count (failed e) = 0
count (done n) = n

one_file-Progress : Progress one_file
one_file-Progress = record { writes = λ handle bytes fs n e h. omega (arith, ap count e) }

-- A request that does not exist.
handle_messages-ends_example :
    (handle_messages one_file 4 (with_input (0xff ∷ 1 ∷ 2 ∷ []) idle)).0 ≢ raise stuck
handle_messages-ends_example =
    handle_messages-ends one_file one_file-Progress 4 (with_input (0xff ∷ 1 ∷ 2 ∷ []) idle)
      (omega arith)

abbrev read_five : ReadHandleArgs
read_five = record { handle = 3; data_len = 5; offset = 1 }

abbrev no_seek : Posix Disk
no_seek = record one_file { lseek_set = λ handle offset fs. (failed (other 29), fs) }

abbrev write_three : WriteHandleInitArgs
write_three = record { handle = 3; offset = 1; data_len = 3 }

-- The data and the next request close the handle 3, in the eyes of the daemon.
handle_messages_unsought_example :
    handle_messages no_seek 2
      (with_input ((encode (write_file write_three (9 ∷ 0 ∷ 0 ∷ []))).bytes ++ (0 ∷ 3 ∷ [])) idle)
    ≡ handle_messages no_seek 1
        (with_input ((9 ∷ 0 ∷ 0 ∷ []) ++ (0 ∷ 3 ∷ [])) (refused (other 29) idle.fs idle))
handle_messages_unsought_example =
    handle_messages_unsought no_seek write_three (9 ∷ 0 ∷ 0 ∷ []) (0 ∷ 3 ∷ []) 1 idle (other 29)
      (record { handle = omega arith; offset = omega arith; data_len = omega arith }) refl

-- The three bytes in front of another request.
abbrev with_three : Handler Disk
with_three = with_input ((7 ∷ 8 ∷ 9 ∷ []) ++ (0 ∷ [])) idle
