-- ===== src/Operations/Settles/Create.antt =====
-- The parts of create_file and get_file_information of nandroidfs/operations.cpp.
use nandroidfs.Operations.Settles.{Settles-on_conn, Settles-choose, if-settles, call_rules}
use nandroidfs.Conversion.{
  status_file_is_a_directory, status_object_name_not_found, status_success, WideString, Unicode,
  status_unsuccessful,
}
use nandroidfs.Operations.Attributes.{information_answer}
use nandroidfs.Protocol.{open_only, ResponseStatus, OpenMode, success, file_not_found}
use nandroidfs.Operations.Create.{
  CreateFlags, create_entry, create_statted, no_access, CreationDisposition, open_with,
  handle_create_file, handle_create_directory, create_always, create_new, open_always,
  open_existing, truncate_existing, unknown,
}
use nandroidfs.Protocol.Responses.{FileStat}
use nandroidfs.Connection.Settles.{req_open_file-Settles, req_create_directory-Settles}
use nandroidfs.Base.{◌&&◌, Option, if◌then◌else◌, Bool, not, true, false, some, none}
use nandroidfs.Exec.{pure}
use nandroidfs.Daemon.Settles.{Settles, Settles-pure}

module _ (unicode : Unicode) where
  pub handle_create_directory-Settles :
      (path : WideString) (disposition : CreationDisposition) (existed is_directory : Bool)
      → Settles (handle_create_directory unicode path disposition existed is_directory)
  unfolding handle_create_directory
  handle_create_directory-Settles path disposition existed is_directory =
      search (call_rules, req_create_directory-Settles) depth 8

  pub open_with-Settles :
      (path : WideString) (disposition : CreationDisposition) (existed : Bool) (mode : OpenMode)
      → Settles (open_with unicode path disposition existed mode)
  unfolding open_with
  open_with-Settles path disposition existed mode =
      search (call_rules, req_open_file-Settles) depth 8

  pub handle_create_file-Settles :
      (path : WideString) (disposition : CreationDisposition) (existed : Bool)
      → Settles (handle_create_file unicode path disposition existed)
  unfolding handle_create_file
  handle_create_file-Settles path create_always existed = record {
    at = (open_with-Settles path create_always existed _).at;
  }
  handle_create_file-Settles path create_new existed = record {
    at = (open_with-Settles path create_new existed _).at;
  }
  handle_create_file-Settles path open_always existed =
      Settles-choose (λ s. no_access s.file_info.context && existed) (λ s. pure status_success)
        (λ s. open_with unicode path open_always existed _) (λ s. Settles-pure _)
        (λ s. open_with-Settles path open_always existed _)
  handle_create_file-Settles path open_existing existed =
      Settles-choose (λ s. no_access s.file_info.context && existed) (λ s. pure status_success)
        (λ s t.
          if not existed
          then pure status_object_name_not_found t
          else open_with unicode path open_existing existed open_only t)
        (λ s. Settles-pure _)
        (λ s.
          Settles-choose (λ t. not existed) (λ t. pure status_object_name_not_found)
            (λ t. open_with unicode path open_existing existed open_only) (λ t. Settles-pure _)
            (λ t. open_with-Settles path open_existing existed open_only))
  handle_create_file-Settles path truncate_existing existed = record {
    at = (open_with-Settles path truncate_existing existed _).at;
  }
  handle_create_file-Settles path (unknown n) existed = record {
    at = (Settles-pure status_unsuccessful).at;
  }

  pub create_entry-Settles :
      (path : WideString) (flags : CreateFlags) (existed is_directory : Bool)
      → Settles (create_entry unicode path flags existed is_directory)
  unfolding create_entry
  create_entry-Settles path flags existed is_directory = record {
    at = λ s. if-settles _ _ _ ((Settles-pure status_file_is_a_directory).at s) (
        if-settles _ _ _
          ((Settles-on_conn _ (
              handle_create_directory-Settles path flags.creation_disposition existed
                is_directory)).at
            _)
          ((handle_create_file-Settles path flags.creation_disposition existed).at _));
  }

  pub create_statted-Settles :
      (path : WideString) (flags : CreateFlags) (answer : ResponseStatus × Option FileStat)
      → Settles (create_statted unicode path flags answer)
  unfolding create_statted
  create_statted-Settles path flags (success, some stat) = create_entry-Settles path flags true _
  create_statted-Settles path flags (file_not_found, none) =
      create_entry-Settles path flags false false
  create_statted-Settles path flags (file_not_found, some stat) =
      create_entry-Settles path flags false false
  create_statted-Settles path flags (success, none) = Settles-pure _
  create_statted-Settles path flags (_, stat) = Settles-pure _

  pub information_answer-Settles :
      (answer : ResponseStatus × Option FileStat) → Settles (information_answer answer)
  information_answer-Settles (success, some stat) = search call_rules
  information_answer-Settles (success, none) = Settles-pure _
  information_answer-Settles (_, stat) = Settles-pure _
