-- ===== src/TrayMenu/Window/Invariant.antt =====
-- What holds in every state that the two threads of nandroidfs/TrayMenu.cpp reach.
use nandroidfs.TrayMenu.Window.Resources.{
  release_resources-window, release_resources-Empty, release_resources-Owned, wm_close_lem,
  tray_window_proc-Keeps, Keeps-Owned, Empty, initialise-Empty, Owned, initialise-Owned,
}
use nandroidfs.Base.{sym, ◌∙◌, ◌≡◌, refl, arith, Bool, true, false}
use nandroidfs.TrayMenu.Window.{
  WindowThread, not_started, looping, finished, Program, created, running, joining, destroyed,
  aborted, System, constructed, start_thread, init_window, close_window, dispatch_message, Step,
  starts, inits, wakes, dispatches, closes, leaves, destroys, destroys_early, joins, Reach, start,
  later,
}

abbrev pub has_started : WindowThread → Bool
has_started not_started = false
has_started _ = true

-- Behind the initialisation.
abbrev pub is_past : WindowThread → Bool
is_past looping = true
is_past finished = true
is_past _ = false

abbrev pub started_thread : Program → Bool
started_thread created = false
started_thread aborted = false
started_thread _ = true

abbrev pub has_result : Program → Bool
has_result (running b) = true
has_result joining = true
has_result destroyed = true
has_result _ = false

pub record Inv (s : System) : Type 0 where
  pub owned : Owned s.tray
  pub closed : s.window_thread ≡ looping → s.tray.tray_icon_window ≡ false → Empty s.tray
  pub ended : s.window_thread ≡ finished → Empty s.tray
  pub thread_made : started_thread s.program ≡ has_started s.window_thread
  pub inited : s.init_process_finished ≡ is_past s.window_thread
  pub waited : has_result s.program ≡ true → is_past s.window_thread ≡ true
  pub posted :
      s.program ≡ joining → s.window_thread ≡ looping → s.close_posted ≡ s.tray.tray_icon_window
  pub joined : s.program ≡ destroyed → s.window_thread ≡ finished

constructed-Inv : Inv constructed
constructed-Inv = record {
  owned = ground arith;
  closed = λ e f. ground arith;
  ended = λ e. ground arith;
  thread_made = refl;
  inited = refl;
  waited = λ e. ground (arith, e);
  posted = λ e f. ground (arith, e, f);
  joined = λ e. ground (arith, e);
}

Step-Inv : {s t : System} → Step s t → Inv s → Inv t
unfolding start_thread init_window close_window dispatch_message
Step-Inv {s} (starts e) i = record {
  owned = i.owned;
  closed = λ p. ground (arith, p);
  ended = λ p. ground (arith, p);
  thread_made = refl;
  inited = ground (arith, i.inited, i.thread_made);
  waited = λ p. ground (arith, p);
  posted = λ p. ground (arith, p);
  joined = λ p. ground (arith, p);
}
Step-Inv {s} (inits calls e) i = record {
  owned = initialise-Owned calls s.tray i.owned;
  closed = λ p q. initialise-Empty calls s.tray i.owned q;
  ended = λ p. ground (arith, p);
  thread_made = ground (arith, i.thread_made);
  inited = refl;
  waited = λ p. refl;
  posted = λ p q. ground (arith, i.waited, p, q);
  joined = λ p. ground (arith, i.joined p);
}
Step-Inv {s} (wakes e f) i = record {
  owned = i.owned;
  closed = i.closed;
  ended = i.ended;
  thread_made = ground (arith, i.thread_made);
  inited = i.inited;
  waited = λ p. ground (arith, i.inited);
  posted = λ p. ground (arith, p);
  joined = λ p. ground (arith, p);
}
Step-Inv {s} (dispatches a m e w h) i = record {
  owned = Keeps-Owned (tray_window_proc-Keeps a m s.tray h) i.owned;
  closed = λ p q. ground (arith, (tray_window_proc-Keeps a m s.tray h).window_handle);
  ended = λ p. ground (arith, p);
  thread_made = i.thread_made;
  inited = i.inited;
  waited = i.waited;
  posted = λ p q. i.posted p q ∙ sym (tray_window_proc-Keeps a m s.tray h).window_handle;
  joined = i.joined;
}
Step-Inv {s} (closes a e w h) i = record {
  owned = rw (wm_close_lem a s.tray) (release_resources-Owned s.tray i.owned);
  closed = λ p q. rw (wm_close_lem a s.tray) (release_resources-Empty s.tray i.owned);
  ended = λ p. ground (arith, p);
  thread_made = i.thread_made;
  inited = i.inited;
  waited = i.waited;
  posted = λ p q. rw (wm_close_lem a s.tray) (sym (release_resources-window s.tray));
  joined = i.joined;
}
Step-Inv {s} (leaves e w) i = record {
  owned = i.owned;
  closed = λ p. ground (arith, p);
  ended = λ p. i.closed e w;
  thread_made = ground (arith, i.thread_made);
  inited = ground (arith, i.inited);
  waited = λ p. refl;
  posted = λ p q. ground (arith, q);
  joined = λ p. refl;
}
Step-Inv {s} (destroys e) i = record {
  owned = i.owned;
  closed = i.closed;
  ended = i.ended;
  thread_made = ground (arith, i.thread_made);
  inited = i.inited;
  waited = λ p. i.waited (ground arith);
  posted = λ p q. refl;
  joined = λ p. ground (arith, p);
}
Step-Inv {s} (destroys_early e) i = record {
  owned = i.owned;
  closed = i.closed;
  ended = i.ended;
  thread_made = ground (arith, i.thread_made);
  inited = i.inited;
  waited = λ p. ground (arith, p);
  posted = λ p. ground (arith, p);
  joined = λ p. ground (arith, p);
}
Step-Inv {s} (joins e f) i = record {
  owned = i.owned;
  closed = i.closed;
  ended = i.ended;
  thread_made = ground (arith, i.thread_made);
  inited = i.inited;
  waited = λ p. ground arith;
  posted = λ p. ground (arith, p);
  joined = λ p. f;
}

pub Reach-Inv : {s : System} → Reach s → Inv s
Reach-Inv start = constructed-Inv
Reach-Inv (later r step) = Step-Inv step (Reach-Inv r)
