-- ===== src/TrayMenu/Window/Tests.antt =====
-- A tray menu that is made and destroyed.
use nandroidfs.TrayMenu.Window.Closing.{destructor_lem, CanEnd}
use nandroidfs.TrayMenu.Window.{
  joining, finished, destroys, wakes, inits, starts, start, running, later, constructed,
  close_window, Reach, System, init_window, start_thread, destroyed,
}
use nandroidfs.TrayMenu.Window.Resources.{Empty}
use nandroidfs.TrayMenu.{Calls}
use nandroidfs.Base.{◌≡◌, refl, true}

abbrev all_work : Calls
all_work = record {
  register_class = true;
  create_window = true;
  extract_icon = true;
  create_popup_menu = true;
  insert_quit = true;
  insert_console = true;
  notify_add = true;
  notify_setversion = true;
}

abbrev made : System
made = init_window all_work (start_thread constructed)

abbrev closing : System
closing = close_window (record made { program = running made.init_succeeded })

closing-Reach : Reach closing
unfolding start_thread init_window
closing-Reach =
    later (later (later (later start (starts refl)) (inits all_work refl)) (wakes refl refl))
      (destroys refl)

destructor_lem_example :
    (closing.program ≡ destroyed → Empty closing.tray × (closing.window_thread ≡ finished))
    × (closing.program ≡ joining → CanEnd closing)
destructor_lem_example = destructor_lem closing-Reach
