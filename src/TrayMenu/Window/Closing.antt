-- ===== src/TrayMenu/Window/Closing.antt =====
-- The destructor of the tray menu (nandroidfs/TrayMenu.cpp).
use nandroidfs.TrayMenu.Messages.{wm_close, ConsoleCalls}
use nandroidfs.TrayMenu.Window.Invariant.{Reach-Inv, Inv, is_past}
use nandroidfs.TrayMenu.Window.Resources.{release_resources-window, Empty, wm_close_lem}
use nandroidfs.Base.{inr, ◌∙◌, Bool-cases, ◌⊎◌, inl, ◌≡◌, refl, arith, true, false}
use nandroidfs.TrayMenu.Window.{
  WindowThread, not_started, initialising, looping, finished, joining, destroyed, System,
  dispatch_message, Step, closes, leaves, joins, Reach, Steps, done, more,
}

-- From here the destructor can return.
abbrev pub CanEnd : System → Type 0
CanEnd s = (t : System) × Steps s t × (t.program ≡ destroyed)

finished-CanEnd : (s : System) → s.program ≡ joining → s.window_thread ≡ finished → CanEnd s
finished-CanEnd s p f = (record s { program = destroyed }, more done (joins p f), refl)

prepended : {s t u : System} → Step s t → Steps t u → Steps s u
prepended step done = more done step
prepended step (more steps last) = more (prepended step steps) last

before : {s t : System} → Step s t → CanEnd t → CanEnd s
before step (u, steps, e) = (u, prepended step steps, e)

left-CanEnd :
    (s : System)
    → s.program ≡ joining
    → s.window_thread ≡ looping
    → s.tray.tray_icon_window ≡ false
    → CanEnd s
left-CanEnd s p l w =
    before (leaves l w) (finished-CanEnd (record s { window_thread = finished }) p refl)

abbrev no_calls : ConsoleCalls
no_calls = record { alloc_console = false; set_menu_item_info = false }

looping-CanEnd : (s : System) → Inv s → s.program ≡ joining → s.window_thread ≡ looping → CanEnd s
unfolding dispatch_message
looping-CanEnd s i p l = elim (Bool-cases s.tray.tray_icon_window) [
  | inl w ↦ before (closes no_calls l w (i.posted p l ∙ w)) (
      left-CanEnd (record (dispatch_message no_calls wm_close s) { close_posted = false }) p l
        (rw (wm_close_lem no_calls s.tray) (release_resources-window s.tray)))
  | inr w ↦ left-CanEnd s p l w
]

past_cases : (w : WindowThread) → is_past w ≡ true → (w ≡ looping) ⊎ (w ≡ finished)
past_cases not_started h = ground arith
past_cases initialising h = ground arith
past_cases looping h = inl refl
past_cases finished h = inr refl

-- However the threads of the program and of the window interleave: when the destructor of the tray
-- menu has returned, the thread of the window has ended and the tray icon, the window, its class
-- and the program's icon are gone, whichever calls of the initialisation failed; and in every
-- state in which the destructor waits for the thread, steps lead on to its return.
pub destructor_lem :
    {s : System}
    → Reach s
    → (s.program ≡ destroyed → Empty s.tray × (s.window_thread ≡ finished))
      × (s.program ≡ joining → CanEnd s)
destructor_lem {s} r =
    let i = Reach-Inv r in
    (
      (λ p. (i.ended (i.joined p), i.joined p)),
      (λ p. elim (past_cases s.window_thread (i.waited (ground arith))) [
        | inl l ↦ looping-CanEnd s i p l
        | inr f ↦ finished-CanEnd s p f
      ]),
    )
