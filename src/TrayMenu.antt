-- ===== src/TrayMenu.antt =====
-- nandroidfs/TrayMenu.cpp: the tray icon and the console window. What the calls of Windows return
-- is the parameters `Calls` and `ConsoleCalls`; `Resources` is what they have made and not
-- destroyed, whether the console and its check mark are seen, and how often the menu popped up.
pub mod Messages
pub mod Lifetime
pub mod Console
pub mod Window
use nandroidfs.Base.{
  some, Option, ℕ, suc, Bool, true, false, not, ◌&&◌, none, List, [], ◌∷◌, if◌then◌else◌, ◌==◌,
}

pub record Resources : Type 0 where
  pub window_class : Bool
  pub window : Bool
  pub icon : Bool
  pub menu : Bool
  pub notify_icon : Bool
  pub consoles : ℕ
  pub console_shown : Bool
  pub item_checked : Bool
  pub popups : ℕ

-- TrayMenuManager: which handles are set, and how often the program was asked to quit.
pub record TrayMenu : Type 0 where
  pub window_class_registered : Bool
  pub tray_icon_window : Bool
  pub tray_icon_id : Bool
  pub right_click_menu : Bool
  pub exe_icon : Bool
  pub alloced_console : Bool
  pub console_enabled : Bool
  pub quits : ℕ
  pub resources : Resources

abbrev pub new_tray_menu : TrayMenu
new_tray_menu = record {
  window_class_registered = false;
  tray_icon_window = false;
  tray_icon_id = false;
  right_click_menu = false;
  exe_icon = false;
  alloced_console = false;
  console_enabled = false;
  quits = 0;
  resources = record {
    window_class = false;
    window = false;
    icon = false;
    menu = false;
    notify_icon = false;
    consoles = 0;
    console_shown = false;
    item_checked = false;
    popups = 0;
  };
}

-- Whether each of the calls of `initialise_internal` succeeds.
pub record Calls : Type 0 where
  pub register_class : Bool
  pub create_window : Bool
  pub extract_icon : Bool
  pub create_popup_menu : Bool
  pub insert_quit : Bool
  pub insert_console : Bool
  pub notify_add : Bool
  pub notify_setversion : Bool

-- A step that fails ends the initialisation.
abbrev Init : Type 0
Init = TrayMenu → Bool × TrayMenu

infixl 5 ◌and_then◌
abbrev ◌and_then◌ : Init → Init → Init
(first and_then next) t =
    let r = first t in let rest = next r.1 in if r.0 then rest else (false, r.1)

module _ (c : Calls) where
  abbrev register_window_class : Init
  register_window_class t =
      if c.register_class
      then (
        true,
        record t {
          window_class_registered = true;
          resources = record t.resources { window_class = true };
        },
      )
      else (false, t)

  abbrev create_message_window : Init
  create_message_window t =
      if c.create_window
      then (
        true,
        record t { tray_icon_window = true; resources = record t.resources { window = true } },
      )
      else (false, t)

  abbrev load_window_icon : Init
  load_window_icon t =
      if c.extract_icon
      then (true, record t { exe_icon = true; resources = record t.resources { icon = true } })
      else (false, t)

  abbrev create_rightclick_menu : Init
  create_rightclick_menu t =
      if c.create_popup_menu
      then (
        c.insert_quit && c.insert_console,
        record t {
          right_click_menu = true;
          resources = record t.resources { menu = true; item_checked = false };
        },
      )
      else (false, t)

  abbrev add_notify_icon : Init
  add_notify_icon t =
      if c.notify_add
      then (
        c.notify_setversion,
        record t { tray_icon_id = true; resources = record t.resources { notify_icon = true } },
      )
      else (false, t)

  unfoldable pub initialise_internal : Init
  initialise_internal =
      register_window_class and_then create_message_window and_then load_window_icon
      and_then create_rightclick_menu and_then add_notify_icon

-- Each handle that is set is destroyed; only that of the window is reset.
unfoldable pub release_resources : TrayMenu → TrayMenu
release_resources t = record t {
  tray_icon_window = false;
  resources = record t.resources {
    notify_icon = t.resources.notify_icon && not t.tray_icon_id;
    window = t.resources.window && not t.tray_icon_window;
    icon = t.resources.icon && not t.exe_icon;
    window_class = t.resources.window_class && not t.window_class_registered;
  };
}

-- `window_thread_entry_point` up to the loop, and `init_succeeded`.
unfoldable pub initialise : Calls → TrayMenu → Bool × TrayMenu
unfolding initialise_internal release_resources
initialise c t =
    let r = initialise_internal c t in (r.0, if r.0 then r.1 else release_resources r.1)
