-- ===== src/Connection/DataLog/Tests.antt =====
-- A connection that logs 5000 bytes, sends 100 more and is destroyed.
use nandroidfs.Base.{arith, ◌≡◌, refl, length}
use nandroidfs.Connection.DataLog.{
  ended, joining, destroyed, Line, DataLog, new_data_log, count_data, log_data, kill, Reach, start,
  later, transfers, logs, kills,
}
use nandroidfs.Connection.DataLog.Account.{Accounted, total, CanEnd, data_log_lem}

abbrev logged : DataLog
logged = log_data (count_data 5000 12 (new_data_log 4 4))

abbrev stopping : DataLog
stopping = kill (count_data 100 0 logged)

stopping-Reach : Reach 5104 16 stopping
unfolding count_data log_data
stopping-Reach =
    later
      (later
        (later
          (later (start 4 4 (omega arith) (omega arith))
            (transfers 5000 12 refl (omega arith) (omega arith)))
          (logs refl refl))
        (transfers 100 0 refl (omega arith) (omega arith)))
      (kills refl)

data_log_lem_example :
    Accounted 5104
      (total (λ (l : Line). l.written_kb) stopping.lines)
      stopping.data_written
      (length stopping.lines)
    × Accounted 16
        (total (λ (l : Line). l.read_kb) stopping.lines)
        stopping.data_read
        (length stopping.lines)
    × (stopping.owner ≡ destroyed → stopping.log_thread ≡ ended)
    × (stopping.owner ≡ joining → CanEnd stopping)
data_log_lem_example = data_log_lem stopping-Reach
