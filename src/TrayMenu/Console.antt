-- ===== src/TrayMenu/Console.antt =====
-- nandroidfs/TrayMenu.cpp: the console and its check mark through any messages.
use nandroidfs.TrayMenu.Messages.{
  ConsoleCalls, Message, wm_close, tray_icon_click, wm_command, wm_other, tray_window_proc,
}
use nandroidfs.TrayMenu.{initialise, Calls, TrayMenu, new_tray_menu}
use nandroidfs.Base.{◌&&◌, if◌then◌else◌, ◌≡◌, refl, arith, Bool, true, List, [], ◌∷◌}

-- One console at most, which is shown exactly if it is enabled.
pub record Inv (t : TrayMenu) : Type 0 where
  pub shown : t.resources.console_shown ≡ t.console_enabled
  pub count : t.resources.consoles ≡ (if t.alloced_console then 1 else 0)
  pub made : t.console_enabled ≡ true → t.alloced_console ≡ true

tray_window_proc-Inv :
    (calls : ConsoleCalls) (m : Message) (t : TrayMenu) → Inv t → Inv (tray_window_proc calls m t)
unfolding tray_window_proc
tray_window_proc-Inv calls wm_close t h = record { shown = h.shown; count = h.count; made = h.made }
tray_window_proc-Inv calls (tray_icon_click event) t h = record {
  shown = ground (arith, h.shown);
  count = ground (arith, h.count);
  made = λ e. ground (arith, e, h.made);
}
tray_window_proc-Inv calls (wm_command high low) t h = record {
  shown = ground (arith, h.shown, h.made);
  count = ground (arith, h.count, h.made);
  made = λ e. ground (arith, e, h.made);
}
tray_window_proc-Inv calls wm_other t h = h

-- The messages one after the other, each with what the calls would return then.
abbrev pub dispatch_all : List (ConsoleCalls × Message) → TrayMenu → TrayMenu
dispatch_all [] t = t
dispatch_all ((calls, m) ∷ messages) t = dispatch_all messages (tray_window_proc calls m t)

dispatch_all-Inv :
    (messages : List (ConsoleCalls × Message)) (t : TrayMenu)
    → Inv t
    → Inv (dispatch_all messages t)
dispatch_all-Inv [] t h = h
dispatch_all-Inv ((calls, m) ∷ messages) t h =
    dispatch_all-Inv messages (tray_window_proc calls m t) (tray_window_proc-Inv calls m t h)

new-Inv : Inv new_tray_menu
new-Inv = record { shown = refl; count = refl; made = λ e. ground (arith, e) }

-- After any messages, whenever a console can be made, the console is shown exactly if it is
-- enabled, and one was made if it is marked as made, and else none.
pub dispatch_all_console :
    (messages : List (ConsoleCalls × Message))
    → let t = dispatch_all messages new_tray_menu in
      (t.resources.console_shown ≡ t.console_enabled)
      × (t.resources.consoles ≡ (if t.alloced_console then 1 else 0))
dispatch_all_console messages =
    let h = dispatch_all-Inv messages new_tray_menu new-Inv in (h.shown, h.count)

abbrev pub all_set : List (ConsoleCalls × Message) → Bool
all_set [] = true
all_set ((calls, m) ∷ messages) = calls.set_menu_item_info && all_set messages

-- There is a menu, whose check mark shows whether the console is enabled.
pub record Checked (t : TrayMenu) : Type 0 where
  pub menu : t.right_click_menu ≡ true
  pub mark : t.resources.item_checked ≡ t.console_enabled

tray_window_proc-Checked :
    (calls : ConsoleCalls) (m : Message) (t : TrayMenu)
    → calls.set_menu_item_info ≡ true
    → Checked t
    → Checked (tray_window_proc calls m t)
unfolding tray_window_proc
tray_window_proc-Checked calls wm_close t e h = record { menu = h.menu; mark = h.mark }
tray_window_proc-Checked calls (tray_icon_click event) t e h = record {
  menu = ground (arith, h.menu);
  mark = ground (arith, h.mark);
}
tray_window_proc-Checked calls (wm_command high low) t e h = record {
  menu = ground (arith, h.menu);
  mark = ground (arith, h.menu, h.mark);
}
tray_window_proc-Checked calls wm_other t e h = h

dispatch_all-Checked :
    (messages : List (ConsoleCalls × Message)) (t : TrayMenu)
    → all_set messages ≡ true
    → Checked t
    → Checked (dispatch_all messages t)
dispatch_all-Checked [] t e h = h
dispatch_all-Checked ((calls, m) ∷ messages) t e h =
    dispatch_all-Checked messages (tray_window_proc calls m t) (ground arith)
      (tray_window_proc-Checked calls m t (ground arith) h)

initialise-Checked :
    (calls : Calls)
    → (initialise calls new_tray_menu).0 ≡ true
    → Checked (initialise calls new_tray_menu).1
unfolding initialise
initialise-Checked calls e = record { menu = ground arith; mark = ground arith }

-- When the menu is initialised and every SetMenuItemInfo succeeds, the check mark shows after any
-- messages whether the console is enabled.
pub dispatch_all-initialise :
    (calls : Calls) (messages : List (ConsoleCalls × Message))
    → (initialise calls new_tray_menu).0 ≡ true
    → all_set messages ≡ true
    → let t = dispatch_all messages (initialise calls new_tray_menu).1 in
      t.resources.item_checked ≡ t.console_enabled
dispatch_all-initialise calls messages e h =
    (dispatch_all-Checked messages (initialise calls new_tray_menu).1 h
      (initialise-Checked calls e)).mark
