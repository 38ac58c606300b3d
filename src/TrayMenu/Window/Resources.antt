-- ===== src/TrayMenu/Window/Resources.antt =====
-- nandroidfs/TrayMenu.cpp: who owns the resources of the tray menu, step by step.
use nandroidfs.TrayMenu.Messages.{
  ConsoleCalls, Message, wm_close, tray_icon_click, wm_command, wm_other, tray_window_proc,
  set_console_enabled,
}
use nandroidfs.Base.{◌≢◌, ◌≡◌, refl, arith, Bool, false, ◌&&◌, not}
use nandroidfs.TrayMenu.{TrayMenu, Calls, initialise, release_resources}

-- The icon in the tray, the window, its class, and the program's icon.
pub record Empty (t : TrayMenu) : Type 0 where
  pub notify_icon : t.resources.notify_icon ≡ false
  pub window : t.resources.window ≡ false
  pub icon : t.resources.icon ≡ false
  pub window_class : t.resources.window_class ≡ false

-- Each of them has a handle.
pub record Owned (t : TrayMenu) : Type 0 where
  pub notify_icon : (t.resources.notify_icon && not t.tray_icon_id) ≡ false
  pub window : (t.resources.window && not t.tray_icon_window) ≡ false
  pub icon : (t.resources.icon && not t.exe_icon) ≡ false
  pub window_class : (t.resources.window_class && not t.window_class_registered) ≡ false

pub initialise-Owned : (c : Calls) (t : TrayMenu) → Owned t → Owned (initialise c t).1
unfolding initialise
initialise-Owned c t o = ground arith

pub release_resources-Empty : (t : TrayMenu) → Owned t → Empty (release_resources t)
unfolding release_resources
release_resources-Empty t o = ground arith

pub release_resources-Owned : (t : TrayMenu) → Owned t → Owned (release_resources t)
unfolding release_resources
release_resources-Owned t o = ground arith

pub release_resources-window : (t : TrayMenu) → (release_resources t).tray_icon_window ≡ false
unfolding release_resources
release_resources-window t = refl

pub wm_close_lem :
    (a : ConsoleCalls) (t : TrayMenu) → tray_window_proc a wm_close t ≡ release_resources t
unfolding tray_window_proc
wm_close_lem a t = refl

pub initialise-Empty :
    (c : Calls) (t : TrayMenu)
    → Owned t
    → (initialise c t).1.tray_icon_window ≡ false
    → Empty (initialise c t).1
unfolding initialise
initialise-Empty c t o e = ground arith

-- A message other than WM_CLOSE leaves the window and these resources alone.
pub record Keeps (t u : TrayMenu) : Type 0 where
  pub window_handle : u.tray_icon_window ≡ t.tray_icon_window
  pub notify_icon_handle : u.tray_icon_id ≡ t.tray_icon_id
  pub icon_handle : u.exe_icon ≡ t.exe_icon
  pub class_registered : u.window_class_registered ≡ t.window_class_registered
  pub notify_icon : u.resources.notify_icon ≡ t.resources.notify_icon
  pub window : u.resources.window ≡ t.resources.window
  pub icon : u.resources.icon ≡ t.resources.icon
  pub window_class : u.resources.window_class ≡ t.resources.window_class

set_console_enabled-Keeps :
    (a : ConsoleCalls) (b : Bool) (t : TrayMenu) → Keeps t (set_console_enabled a b t).1
unfolding set_console_enabled
set_console_enabled-Keeps a b t = ground arith

pub tray_window_proc-Keeps :
    (a : ConsoleCalls) (m : Message) (t : TrayMenu)
    → m ≢ wm_close
    → Keeps t (tray_window_proc a m t)
unfolding tray_window_proc
tray_window_proc-Keeps a wm_close t h = absurd (h refl)
tray_window_proc-Keeps a (tray_icon_click e) t h = ground arith
tray_window_proc-Keeps a (wm_command high low) t h = ground arith
tray_window_proc-Keeps a wm_other t h = ground arith

pub Keeps-Owned : {t u : TrayMenu} → Keeps t u → Owned t → Owned u
Keeps-Owned k o = ground arith

Keeps-Empty : {t u : TrayMenu} → Keeps t u → Empty t → Empty u
Keeps-Empty k o = ground arith
