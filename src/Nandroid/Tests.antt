-- ===== src/Nandroid/Tests.antt =====
-- One start of a daemon, and a device whose first drive letter is taken.
use nandroidfs.Path.{pop_back, ends_with}
use nandroidfs.Nandroid.Start.Invariant.{verdict, begin_passes_announced, begin_wakes, announced}
use nandroidfs.Nandroid.Start.{
  woken, System, started, printing, Step, prints, wakes, done, Reach, start, later,
}
use nandroidfs.Base.{
  ◌≡◌, refl, ℕ, true, false, some, List, [], ◌∷◌, Bytes, if◌then◌else◌, ◌==◌, arith,
}
use nandroidfs.Text.{codes, split_lines, starts_with}
use nandroidfs.Nandroid.{
  Agent, new_agent, handle_line, handle_daemon_output, DokanStatus, dokan_success,
  dokan_mount_error, mount_filesystem, mounted,
}
use nandroidfs.Nandroid.Output.{handle_chunks, concat, announces, handle_daemon_output_chunks}
use nandroidfs.Nandroid.Mount.{first_free, drive_letters, mount_filesystem_lem}

abbrev chunks : List Bytes
chunks = codes "starting\nNANDROID_READY" ∷ codes "_FOR_CONNECTION\nlistening" ∷ []

handle_daemon_output_chunks_example :
    (end : Agent) × (handle_chunks chunks new_agent ≡ some end)
    × (end.agent_output_buffer ≡ (split_lines (concat chunks)).1)
    × (end.agent_ready ≡ announces (split_lines (concat chunks)).0)
    × (end.agent_ready_notified ≡ announces (split_lines (concat chunks)).0)
handle_daemon_output_chunks_example = handle_daemon_output_chunks chunks

chunks_announce : announces (split_lines (concat chunks)).0 ≡ true
unfolding split_lines starts_with
chunks_announce = refl

abbrev one_taken : ℕ → DokanStatus
one_taken letter = if letter == b'D' then dokan_mount_error else dokan_success

mount_filesystem_lem_example : mount_filesystem one_taken ≡ first_free one_taken drive_letters
mount_filesystem_lem_example = mount_filesystem_lem one_taken

mounted_second : mount_filesystem one_taken ≡ mounted b'E'
unfolding mount_filesystem
mounted_second = refl

abbrev ready_chunk : Bytes
ready_chunk = codes "NANDROID_READY_FOR_CONNECTION\n"

abbrev ready_agent : Agent
ready_agent = record {
  agent_output_buffer = [];
  agent_ready = true;
  agent_ready_notified = true;
  agent_dead_notified = false;
  agent_log = codes "NANDROID_READY_FOR_CONNECTION" ∷ [];
}

handled_ready : handle_daemon_output ready_chunk new_agent ≡ some ready_agent
unfolding handle_daemon_output handle_line ends_with pop_back
handled_ready = refl

abbrev announced_state : System
announced_state = printing ready_chunk ready_agent started

announced_Reach : Reach announced_state
announced_Reach =
    later start (prints ready_chunk refl handled_ready (λ e. absurd (ground (arith, e))))

announced_ready : announced ready_chunk ≡ true
unfolding split_lines starts_with
announced_ready = refl

begin_passes_announced_example : announced ready_chunk ≡ true
unfolding woken
begin_passes_announced_example =
    begin_passes_announced (later announced_Reach (wakes refl refl)) refl

begin_wakes_example :
    Step announced_state (woken announced_state)
    × ((woken announced_state).begin_at ≡ verdict announced_state)
begin_wakes_example = begin_wakes announced_Reach (rw announced_ready) done refl
