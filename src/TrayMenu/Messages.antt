-- ===== src/TrayMenu/Messages.antt =====
-- nandroidfs/TrayMenu.cpp: the messages of the window, the console and its handler of Ctrl + C.
use nandroidfs.Base.{ℕ, suc, Bool, true, false, not, ◌&&◌, Option, none, some, if◌then◌else◌, ◌==◌}
use nandroidfs.TrayMenu.{TrayMenu, release_resources}

-- Whether `AllocConsole` and `SetMenuItemInfo` succeed.
pub record ConsoleCalls : Type 0 where
  pub alloc_console : Bool
  pub set_menu_item_info : Bool

abbrev enable_console : ConsoleCalls → TrayMenu → Bool × TrayMenu
enable_console calls t =
    if t.alloced_console
    then (
      true,
      record t { console_enabled = true; resources = record t.resources { console_shown = true } },
    )
    else if calls.alloc_console
    then (
      true,
      record t {
        alloced_console = true;
        console_enabled = true;
        resources = record t.resources {
          consoles = suc t.resources.consoles;
          console_shown = true;
        };
      },
    )
    else (false, t)

abbrev disable_console : TrayMenu → TrayMenu
disable_console t =
    if t.alloced_console
    then (record t {
      console_enabled = false;
      resources = record t.resources { console_shown = false };
    })
    else (record t { console_enabled = false })

abbrev same : Bool → Bool → Bool
same true b = b
same false b = not b

abbrev update_rightclick_menu : ConsoleCalls → TrayMenu → Bool × TrayMenu
update_rightclick_menu calls t =
    if t.right_click_menu && calls.set_menu_item_info
    then (true, record t { resources = record t.resources { item_checked = t.console_enabled } })
    else (false, t)

unfoldable pub set_console_enabled : ConsoleCalls → Bool → TrayMenu → Bool × TrayMenu
set_console_enabled calls new_enabled t =
    let enabled = enable_console calls t in
    let updated = update_rightclick_menu calls enabled.1 in
    let disabled = update_rightclick_menu calls (disable_console t) in
    if same new_enabled t.console_enabled
    then (true, t)
    else if new_enabled
    then (if enabled.0 then (true, updated.1) else (false, t))
    else (true, disabled.1)

-- A message of the window; a command comes with the high and the low word of its parameter.
pub data Message : Type 0 where
  wm_close : Message
  tray_icon_click : ℕ → Message
  wm_command : ℕ → ℕ → Message
  wm_other : Message

abbrev quit_item_id : ℕ
quit_item_id = 1

abbrev console_item_id : ℕ
console_item_id = 2

abbrev pub wm_contextmenu : ℕ
wm_contextmenu = 123

abbrev tray_icon_clicked : ℕ → TrayMenu → TrayMenu
tray_icon_clicked event t =
    if (event == wm_contextmenu) && t.right_click_menu
    then (record t { resources = record t.resources { popups = suc t.resources.popups } })
    else t

abbrev menu_item : ConsoleCalls → ℕ → TrayMenu → TrayMenu
menu_item calls id t =
    let toggled = (set_console_enabled calls (not t.console_enabled) t).1 in
    if id == quit_item_id
    then (record t { quits = suc t.quits })
    else if id == console_item_id
    then toggled
    else t

unfoldable pub tray_window_proc : ConsoleCalls → Message → TrayMenu → TrayMenu
unfolding release_resources set_console_enabled
tray_window_proc calls wm_close t = release_resources t
tray_window_proc calls (tray_icon_click event) t = tray_icon_clicked event t
tray_window_proc calls (wm_command high low) t =
    let done = menu_item calls low t in if high == 0 then done else t
tray_window_proc calls wm_other t = t

abbrev ctrl_c_event : ℕ
ctrl_c_event = 0

-- The instance is that of `inst`; `none` as the result is a null pointer that is dereferenced.
unfoldable pub console_handler : ℕ → Option TrayMenu → Option (Bool × Option TrayMenu)
console_handler signal (some t) =
    if signal == ctrl_c_event
    then some (true, some (record t { quits = suc t.quits }))
    else some (true, some t)
console_handler signal none = if signal == ctrl_c_event then none else some (true, none)
