-- ===== src/TrayMenu/Lifetime.antt =====
-- nandroidfs/TrayMenu.cpp: what an initialisation leaves, on every branch.
use nandroidfs.Base.{◌≡◌, arith, Bool, ◌&&◌}
use nandroidfs.TrayMenu.{Calls, new_tray_menu, initialise}

abbrev pub all_succeed : Calls → Bool
all_succeed c =
    c.register_class && c.create_window && c.extract_icon && c.create_popup_menu && c.insert_quit
    && c.insert_console && c.notify_add && c.notify_setversion

-- The initialisation of the tray menu succeeds exactly if every call does; then the window, its
-- class, the program's icon and the tray icon are there, and else none of them is left, whichever
-- call failed.
pub initialise_lem :
    (c : Calls)
    → let (success, t) = initialise c new_tray_menu in
      (success ≡ all_succeed c)
      × (t.resources.window ≡ success)
      × (t.resources.window_class ≡ success)
      × (t.resources.icon ≡ success)
      × (t.resources.notify_icon ≡ success)
      × (t.tray_icon_window ≡ success)
unfolding initialise
initialise_lem c = ground arith
