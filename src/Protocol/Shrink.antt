-- ===== src/Protocol/Shrink.antt =====
-- Reading a request's arguments takes bytes off the stream and puts none back.
use nandroidfs.Wire.Shrink.{Shrinks-read_u16, Shrinks, shrinks_rules}
use nandroidfs.Protocol.Responses.{read_file_stat}
use nandroidfs.Protocol.Requests.{
  read_open_handle_args, read_read_handle_args, read_write_handle_init_args, read_move_entry_args,
  read_truncate_handle_args, read_set_file_time_args,
}

pub Shrinks-open_handle_args : Shrinks read_open_handle_args
unfolding read_open_handle_args
Shrinks-open_handle_args = search shrinks_rules depth 8

pub Shrinks-read_handle_args : Shrinks read_read_handle_args
unfolding read_read_handle_args
Shrinks-read_handle_args = search shrinks_rules depth 8

pub Shrinks-write_handle_init_args : Shrinks read_write_handle_init_args
unfolding read_write_handle_init_args
Shrinks-write_handle_init_args = search shrinks_rules depth 8

pub Shrinks-move_entry_args : Shrinks read_move_entry_args
unfolding read_move_entry_args
Shrinks-move_entry_args = search shrinks_rules depth 8

pub Shrinks-truncate_handle_args : Shrinks read_truncate_handle_args
unfolding read_truncate_handle_args
Shrinks-truncate_handle_args = search shrinks_rules depth 8

pub Shrinks-set_file_time_args : Shrinks read_set_file_time_args
unfolding read_set_file_time_args
Shrinks-set_file_time_args = search shrinks_rules depth 8

pub Shrinks-file_stat : Shrinks read_file_stat
unfolding read_file_stat
Shrinks-file_stat = search (shrinks_rules, Shrinks-read_u16) depth 8
