-- ===== src/Nandroid/Start.antt =====
-- nandroidfs/Nandroid.cpp: the thread of `begin` and that of `invoke_daemon`, interleaved in any
-- order. A chunk of output is one step: only its flags are shared, and they change together under
-- the mutex, which `begin` holds from the end of its wait until it returns or throws.
pub mod Invariant
use nandroidfs.Base.{ℕ, ◌≡◌, ◌≢◌, Bool, true, false, Option, some, Bytes, ◌++◌, [], if◌then◌else◌}
use nandroidfs.Nandroid.{Agent, new_agent, handle_daemon_output, daemon_ended}
use nandroidfs.Nandroid.Output.{shared}

-- Where `begin` is: in the wait, behind it with the mutex, or done.
pub data Phase : Type 0 where
  waiting connecting mounted failed : Phase

pub data Daemon : Type 0 where
  running exited : Daemon

-- `printed` is everything the daemon has printed.
pub record System : Type 0 where
  pub agent : Agent
  pub begin_at : Phase
  pub daemon : Daemon
  pub printed : Bytes

-- The daemon's thread was just started.
abbrev pub started : System
started = record { agent = new_agent; begin_at = waiting; daemon = running; printed = [] }

-- What `begin` does when its wait ends.
unfoldable pub woken : System → System
woken s = record s {
  agent = record s.agent { agent_ready_notified = false };
  begin_at = if s.agent.agent_ready then connecting else failed;
}

abbrev pub printing : Bytes → Agent → System → System
printing chunk a s = record s { agent = a; printed = s.printed ++ chunk }

abbrev pub ended : System → System
ended s = record s { agent = daemon_ended s.agent; daemon = exited }

pub data Step (s : System) : System → Type 0 where
  prints :
      (chunk : Bytes) {a : Agent}
      → s.daemon ≡ running
      → handle_daemon_output chunk s.agent ≡ some a
      → (s.begin_at ≡ connecting → shared a ≡ shared s.agent)
      → Step s (printing chunk a s)
  ends : s.daemon ≡ running → s.begin_at ≢ connecting → Step s (ended s)
  wakes : s.begin_at ≡ waiting → s.agent.agent_ready_notified ≡ true → Step s (woken s)
  mounts : s.begin_at ≡ connecting → Step s (record s { begin_at = mounted })
  fails : s.begin_at ≡ connecting → Step s (record s { begin_at = failed })

-- Any number of steps.
pub data Steps (s : System) : System → Type 0 where
  done : Steps s s
  more : {t u : System} → Steps s t → Step t u → Steps s u

pub data Reach : System → Type 0 where
  start : Reach started
  later : {s t : System} → Reach s → Step s t → Reach t
