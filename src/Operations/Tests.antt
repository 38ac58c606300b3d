-- ===== src/Operations/Tests.antt =====
-- Times at concrete values.
use nandroidfs.Operations.Settles.{returned, may_end}
use nandroidfs.Operations.Returns.{nandroid_operations_returns}
use nandroidfs.Base.{◌∷◌, some, refl, ◌++◌, [], false, true, ◌≡◌, arith}
use nandroidfs.Operations.Callbacks.{on_find_files, nandroid_operations, Answer}
use nandroidfs.Session.Fixtures.{
  wide_path_no_ini, wide_path-IsPath, call, ascii, wide_path, disk, client,
}
use nandroidfs.Operations.Opened.{handle_create_file_lem, context_after, open_outcome, open_args}
use nandroidfs.Daemon.Posix.{with_input}
use nandroidfs.Daemon.Messages.{handle_messages}
use nandroidfs.Protocol.Request.{encode, open_file}
use nandroidfs.Session.Open.{forgets_parent, opens}
use nandroidfs.Exec.{ok}
use nandroidfs.Daemon.Disk.{one_file}
use nandroidfs.Session.{awaiting, at_rest, reply}
use nandroidfs.Protocol.{create_if_not_exist}
use nandroidfs.Conversion.{win32_path_to_unix, FileTime}
use nandroidfs.Operations.{no_handle, Call, FileContext}
use nandroidfs.Operations.Create.{handle_create_file, open_always}
use nandroidfs.Protocol.Requests.{OpenHandleArgs}

abbrev file_time : FileTime
file_time = record { low_date_time = 3577643035; high_date_time = 27111902 }

abbrev writing : FileContext
writing = record { handle = no_handle; read_access = false; write_access = true }

-- The open of "\d\f" for writing, if it is there or not.
abbrev asked : OpenHandleArgs
asked = open_args (win32_path_to_unix ascii wide_path) create_if_not_exist writing

abbrev writer : Call
writer = record call { file_info = record call.file_info { context = writing } }

handle_create_file_lem_example :
    (handle_create_file ascii wide_path open_always true
        (record writer { conn = awaiting (reply one_file (open_file asked) [] disk) [] client })
      ≡ (
        ok (open_outcome open_always true (opens one_file asked disk).0),
        record writer {
          conn =
              forgets_parent create_if_not_exist
                (win32_path_to_unix ascii wide_path)
                (awaiting [] ([] ++ (encode (open_file asked)).bytes) client);
          file_info = record writer.file_info {
            context = context_after (opens one_file asked disk).0 asked writing;
          };
        },
      ))
    × ((handle_messages one_file 2
          (with_input (encode (open_file asked)).bytes (at_rest [] disk))).1.fs
        ≡ (opens one_file asked disk).1)
handle_create_file_lem_example =
    handle_create_file_lem one_file ascii wide_path open_always true create_if_not_exist [] [] disk
      writer refl wide_path-IsPath wide_path_no_ini (omega arith)

-- A listing to which the daemon answers with a success, and then hangs up inside an entry.
nandroid_operations_returns_example :
    (a : Answer) × ((nandroid_operations ascii
        (λ n. n)
        (λ n s. some s)
        []
        (on_find_files wide_path)
        (record call { conn = awaiting (0 ∷ 0 ∷ 7 ∷ []) [] client })).0
      ≡ ok a)
    × (may_end (on_find_files wide_path) ≡ false → returned a ≡ true)
nandroid_operations_returns_example =
    nandroid_operations_returns ascii (λ n. n) (λ n s. some s) [] (on_find_files wide_path)
      (record call { conn = awaiting (0 ∷ 0 ∷ 7 ∷ []) [] client })
