-- ===== src/Connection/DataLog.antt =====
-- The data log of Connection in a debug build (nandroidfs/Connection.{hpp,cpp}): the counts of
-- `read` and `write`, the thread that prints them each second, and the destructor that stops it.
-- What a thread does while it holds `request_mutex` is one step.
pub mod Account
mod Tests
use nandroidfs.Base.{◌<◌, ℕ, ◌+◌, ◌/◌, ◌^◌, ◌≡◌, Bool, true, false, List, [], ◌∷◌}

-- `awake` is in front of the lock.
pub data LogThread : Type 0 where
  awake sleeping ended : LogThread

-- The thread that owns the connection; when it destroys it, no request is under way.
pub data Owner : Type 0 where
  in_use joining destroyed : Owner

-- A line in KiB.
pub record Line : Type 0 where
  pub written_kb : ℕ
  pub read_kb : ℕ

-- `lines` are those that were printed, the last first.
pub record DataLog : Type 0 where
  pub data_written : ℕ
  pub data_read : ℕ
  pub kill_data_log : Bool
  pub log_thread : LogThread
  pub owner : Owner
  pub lines : List Line

-- Behind the constructor, whose handshake was counted.
abbrev pub new_data_log : ℕ → ℕ → DataLog
new_data_log written read = record {
  data_written = written;
  data_read = read;
  kill_data_log = false;
  log_thread = awake;
  owner = in_use;
  lines = [];
}

-- The counts of a request.
unfoldable pub count_data : ℕ → ℕ → DataLog → DataLog
count_data written read s = record s {
  data_written = s.data_written + written;
  data_read = s.data_read + read;
}

-- A round of `data_log_entry_point` that is not asked to stop.
unfoldable pub log_data : DataLog → DataLog
log_data s = record s {
  data_written = 0;
  data_read = 0;
  log_thread = sleeping;
  lines =
      (record { written_kb = s.data_written / 2 ^ 10; read_kb = s.data_read / 2 ^ 10 }) ∷ s.lines;
}

-- ~Connection up to its wait.
unfoldable pub kill : DataLog → DataLog
kill s = record s { kill_data_log = true; owner = joining }

-- The counts are `int`s: a request that would take one past its largest value, which the code does
-- not define, is no step.
pub data Step (s : DataLog) : DataLog → Type 0 where
  transfers :
      (written read : ℕ)
      → s.owner ≡ in_use
      → s.data_written + written < 2 ^ 31
      → s.data_read + read < 2 ^ 31
      → Step s (count_data written read s)
  logs : s.log_thread ≡ awake → s.kill_data_log ≡ false → Step s (log_data s)
  returns : s.log_thread ≡ awake → s.kill_data_log ≡ true → Step s (record s { log_thread = ended })
  wakes : s.log_thread ≡ sleeping → Step s (record s { log_thread = awake })
  kills : s.owner ≡ in_use → Step s (kill s)
  joins : s.owner ≡ joining → s.log_thread ≡ ended → Step s (record s { owner = destroyed })

-- How much a step moves.
abbrev pub step_written : {s t : DataLog} → Step s t → ℕ
step_written (transfers written read e _ _) = written
step_written _ = 0

abbrev pub step_read : {s t : DataLog} → Step s t → ℕ
step_read (transfers written read e _ _) = read
step_read _ = 0

-- `Reach w r s`: the connection reaches `s` and has sent `w` bytes and received `r`.
pub data Reach : ℕ → ℕ → DataLog → Type 0 where
  start :
      (written read : ℕ)
      → written < 2 ^ 31
      → read < 2 ^ 31
      → Reach written read (new_data_log written read)
  later :
      {w r : ℕ} {s t : DataLog}
      → Reach w r s
      → (step : Step s t) → Reach (w + step_written step) (r + step_read step) t

pub data Steps : DataLog → DataLog → Type 0 where
  done : {s : DataLog} → Steps s s
  more : {s t u : DataLog} → Step s t → Steps t u → Steps s u
