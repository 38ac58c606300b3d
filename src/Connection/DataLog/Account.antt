-- ===== src/Connection/DataLog/Account.antt =====
-- What the lines of the data log (nandroidfs/Connection.cpp) say of the bytes that were moved, and
-- the end of its thread.
use nandroidfs.Base.{ℕ, suc, ◌+◌, ◌*◌, ◌/◌, ◌^◌, ◌≤◌, ◌≡◌, refl, arith, true, List, [], ◌∷◌, length}
use nandroidfs.Connection.DataLog.{
  LogThread, awake, sleeping, ended, joining, destroyed, Line, DataLog, new_data_log, count_data,
  log_data, kill, Step, transfers, logs, returns, wakes, kills, joins, step_written, step_read,
  Reach, start, later, Steps, done, more,
}

unfoldable pub total : (Line → ℕ) → List Line → ℕ
total f [] = 0
total f (line ∷ lines) = f line + total f lines

-- All that was moved is in the lines and the count, but for less than a KiB for each line.
pub record Accounted (moved kb count lines : ℕ) : Type 0 where
  pub least : kb * 1024 + count ≤ moved
  pub most : moved ≤ kb * 1024 + count + lines * 1023

pub record Inv (w r : ℕ) (s : DataLog) : Type 0 where
  pub written :
      Accounted w (total (λ (l : Line). l.written_kb) s.lines) s.data_written (length s.lines)
  pub read : Accounted r (total (λ (l : Line). l.read_kb) s.lines) s.data_read (length s.lines)
  pub killed : s.owner ≡ joining → s.kill_data_log ≡ true
  pub joined : s.owner ≡ destroyed → s.log_thread ≡ ended

counted-Accounted :
    (moved kb count lines n : ℕ)
    → Accounted moved kb count lines
    → Accounted (moved + n) kb (count + n) lines
counted-Accounted moved kb count lines n a =
    let least = a.least in let most = a.most in record { least = omega arith; most = omega arith }

logged-Accounted :
    (moved kb count lines : ℕ)
    → Accounted moved kb count lines
    → Accounted (moved + 0) (count / 2 ^ 10 + kb) 0 (suc lines)
logged-Accounted moved kb count lines a =
    let least = a.least in let most = a.most in record { least = omega arith; most = omega arith }

still-Accounted :
    (moved kb count lines : ℕ)
    → Accounted moved kb count lines
    → Accounted (moved + 0) kb count lines
still-Accounted moved kb count lines a =
    let least = a.least in let most = a.most in record { least = omega arith; most = omega arith }

new_data_log-Inv : (w r : ℕ) → Inv w r (new_data_log w r)
unfolding total
new_data_log-Inv w r = record {
  written = record { least = omega arith; most = omega arith };
  read = record { least = omega arith; most = omega arith };
  killed = λ p. ground (arith, p);
  joined = λ p. ground (arith, p);
}

Step-Inv :
    {w r : ℕ} {s t : DataLog} (step : Step s t)
    → Inv w r s
    → Inv (w + step_written step) (r + step_read step) t
unfolding count_data log_data kill total
Step-Inv {w} {r} {s} (transfers written read e _ _) i = record {
  written = counted-Accounted w _ s.data_written _ written i.written;
  read = counted-Accounted r _ s.data_read _ read i.read;
  killed = i.killed;
  joined = i.joined;
}
Step-Inv {w} {r} {s} (logs e k) i = record {
  written = logged-Accounted w _ s.data_written _ i.written;
  read = logged-Accounted r _ s.data_read _ i.read;
  killed = i.killed;
  joined = λ p. ground (arith, i.joined p);
}
Step-Inv {w} {r} {s} (returns e k) i = record {
  written = still-Accounted w _ s.data_written _ i.written;
  read = still-Accounted r _ s.data_read _ i.read;
  killed = i.killed;
  joined = λ p. refl;
}
Step-Inv {w} {r} {s} (wakes e) i = record {
  written = still-Accounted w _ s.data_written _ i.written;
  read = still-Accounted r _ s.data_read _ i.read;
  killed = i.killed;
  joined = λ p. ground (arith, i.joined p);
}
Step-Inv {w} {r} {s} (kills e) i = record {
  written = still-Accounted w _ s.data_written _ i.written;
  read = still-Accounted r _ s.data_read _ i.read;
  killed = λ p. refl;
  joined = λ p. ground (arith, p);
}
Step-Inv {w} {r} {s} (joins e f) i = record {
  written = still-Accounted w _ s.data_written _ i.written;
  read = still-Accounted r _ s.data_read _ i.read;
  killed = λ p. ground (arith, p);
  joined = λ p. f;
}

Reach-Inv : {w r : ℕ} {s : DataLog} → Reach w r s → Inv w r s
Reach-Inv (start w r _ _) = new_data_log-Inv w r
Reach-Inv (later reached step) = Step-Inv step (Reach-Inv reached)

-- From here the destructor returns without another line.
abbrev pub CanEnd : DataLog → Type 0
CanEnd s = (t : DataLog) × Steps s t × (t.owner ≡ destroyed) × (t.lines ≡ s.lines)

ended-CanEnd : (s : DataLog) → s.owner ≡ joining → s.log_thread ≡ ended → CanEnd s
ended-CanEnd s p e = (record s { owner = destroyed }, more (joins p e) done, refl, refl)

awake-CanEnd :
    (s : DataLog) → s.owner ≡ joining → s.kill_data_log ≡ true → s.log_thread ≡ awake → CanEnd s
awake-CanEnd s p k a = (
  record s { log_thread = ended; owner = destroyed },
  more (returns a k) (more (joins p refl) done),
  refl,
  refl,
)

sleeping-CanEnd :
    (s : DataLog) → s.owner ≡ joining → s.kill_data_log ≡ true → s.log_thread ≡ sleeping → CanEnd s
sleeping-CanEnd s p k a = (
  record s { log_thread = ended; owner = destroyed },
  more (wakes a) (more (returns refl k) (more (joins p refl) done)),
  refl,
  refl,
)

joining-CanEnd :
    (s : DataLog) (thread : LogThread)
    → s.owner ≡ joining
    → s.kill_data_log ≡ true
    → s.log_thread ≡ thread
    → CanEnd s
joining-CanEnd s awake p k e = awake-CanEnd s p k e
joining-CanEnd s sleeping p k e = sleeping-CanEnd s p k e
joining-CanEnd s ended p k e = ended-CanEnd s p e

-- However requests, the thread of the data log and the destructor interleave, as long as no count
-- of the bytes since the last line reaches 2 ^ 31: the bytes that the connection has sent are
-- those of the printed KiB and those counted for the next line, and at most 1023 more for each
-- line, and so for those it has received; when the destructor has returned the thread has ended,
-- and whenever the destructor waits for it, steps that print no further line lead on to its
-- return.
pub data_log_lem :
    {w r : ℕ} {s : DataLog}
    → Reach w r s
    → Accounted w (total (λ (l : Line). l.written_kb) s.lines) s.data_written (length s.lines)
      × Accounted r (total (λ (l : Line). l.read_kb) s.lines) s.data_read (length s.lines)
      × (s.owner ≡ destroyed → s.log_thread ≡ ended)
      × (s.owner ≡ joining → CanEnd s)
data_log_lem {s = s} reached =
    let i = Reach-Inv reached in
    (i.written, i.read, i.joined, λ p. joining-CanEnd s s.log_thread p (i.killed p) refl)
