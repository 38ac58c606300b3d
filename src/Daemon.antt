-- ===== src/Daemon.antt =====
-- nandroid_daemon: the program on the Android device. It serves one client on one socket
-- (nandroid_daemon/src/ClientHandler.cpp) over the POSIX file system, which is a parameter.
mod Tests
pub mod Buffer
pub mod Disk
pub mod Posix
pub mod Convert
pub mod Handlers
pub mod Transfer
pub mod ReadFile
pub mod Overwrite
pub mod WriteFile
pub mod Messages
pub mod Framing
pub mod Frames
pub mod Serve
pub mod Unsought
pub mod Ends
pub mod Settles
