-- ===== src/TrayMenu/Window.antt =====
-- nandroidfs/TrayMenu.cpp: the thread of the window and that of the program, interleaved in any
-- order: the start of the thread and the wait for it, the event loop, and the destructor.
pub mod Resources
pub mod Invariant
pub mod Closing
mod Tests
use nandroidfs.TrayMenu.Messages.{ConsoleCalls, Message, wm_close, tray_window_proc}
use nandroidfs.Base.{◌≡◌, ◌≢◌, Bool, true, false}
use nandroidfs.TrayMenu.{TrayMenu, new_tray_menu, Calls, initialise}

-- The thread of the window; `looping` is `event_loop`.
pub data WindowThread : Type 0 where
  not_started initialising looping finished : WindowThread

-- The thread of the program: the manager was made, waits in `initialise`, has its result, waits in
-- the destructor, or is behind it. `aborted` is std::terminate.
pub data Program : Type 0 where
  created waiting : Program
  running : Bool → Program
  joining destroyed aborted : Program

-- `close_posted` is whether a WM_CLOSE is in the queue of the window.
pub record System : Type 0 where
  pub tray : TrayMenu
  pub window_thread : WindowThread
  pub program : Program
  pub init_process_finished : Bool
  pub init_succeeded : Bool
  pub close_posted : Bool

-- TrayMenuManager::TrayMenuManager, if there is no other.
abbrev pub constructed : System
constructed = record {
  tray = new_tray_menu;
  window_thread = not_started;
  program = created;
  init_process_finished = false;
  init_succeeded = false;
  close_posted = false;
}

-- `initialise` up to its wait.
unfoldable pub start_thread : System → System
start_thread s = record s { window_thread = initialising; program = waiting }

-- `window_thread_entry_point` up to the loop.
unfoldable pub init_window : Calls → System → System
init_window calls s = record s {
  tray = (initialise calls s.tray).1;
  window_thread = looping;
  init_process_finished = true;
  init_succeeded = (initialise calls s.tray).0;
}

-- The first half of ~TrayMenuManager.
unfoldable pub close_window : System → System
close_window s = record s { program = joining; close_posted = s.tray.tray_icon_window }

-- A message that the loop takes.
unfoldable pub dispatch_message : ConsoleCalls → Message → System → System
dispatch_message calls message s = record s { tray = tray_window_proc calls message s.tray }

-- A join of a thread that was never started throws.
pub data Step (s : System) : System → Type 0 where
  starts : s.program ≡ created → Step s (start_thread s)
  inits : (calls : Calls) → s.window_thread ≡ initialising → Step s (init_window calls s)
  wakes :
      s.program ≡ waiting
      → s.init_process_finished ≡ true
      → Step s (record s { program = running s.init_succeeded })
  dispatches :
      (calls : ConsoleCalls) (message : Message)
      → s.window_thread ≡ looping
      → s.tray.tray_icon_window ≡ true
      → message ≢ wm_close
      → Step s (dispatch_message calls message s)
  closes :
      (calls : ConsoleCalls)
      → s.window_thread ≡ looping
      → s.tray.tray_icon_window ≡ true
      → s.close_posted ≡ true
      → Step s (record (dispatch_message calls wm_close s) { close_posted = false })
  leaves :
      s.window_thread ≡ looping
      → s.tray.tray_icon_window ≡ false
      → Step s (record s { window_thread = finished })
  destroys : {b : Bool} → s.program ≡ running b → Step s (close_window s)
  destroys_early : s.program ≡ created → Step s (record s { program = aborted })
  joins :
      s.program ≡ joining → s.window_thread ≡ finished → Step s (record s { program = destroyed })

pub data Reach : System → Type 0 where
  start : Reach constructed
  later : {s t : System} → Reach s → Step s t → Reach t

pub data Steps (s : System) : System → Type 0 where
  done : Steps s s
  more : {t u : System} → Steps s t → Step t u → Steps s u
