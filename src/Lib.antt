-- ===== src/Lib.antt =====
-- NandroidFS shows the files of an Android device as a Windows drive. A daemon on the device
-- (nandroid_daemon) serves requests over a TCP connection; the Windows program (nandroidfs) sends
-- them on behalf of Dokan's callbacks; both sides share the wire format (nandroid_shared).
--
--  * Base: tests, lists and bits that the other modules share.
--  * Wire: DataReader and DataWriter of nandroid_shared/serialization.cpp over a plain byte string:
--    `Get` reads a value off its front, `Put` is the bytes that a writer adds and whether it may.
--    `Wire.ByteOrder` is htonll and ntohll as the daemon is built, on a little-endian machine.
--  * Serial: the same reader and writer as they are written, with their buffers over a stream
--    that gives or takes bytes in chunks (`Readable`, `Writable`).
--  * Protocol: the enums and the records of nandroid_shared/requests.{hpp,cpp} and
--    responses.{hpp,cpp}; `Request` is a request as a value.
--  * Path: nandroid_shared/path_utils.cpp.
--  * Exec: code that changes an object and may throw. `Port` is the two ends of a connection.
--  * Daemon: ClientHandler of nandroid_daemon/src/ClientHandler.cpp. The system calls are the fields
--    of one parameter, `Posix`, over an abstract file-system state; `errno` is part of their result.
--    `Progress` is what POSIX says of the count of `write`, `RegularFile` of `lseek` and `read`, and
--    `WritableFile` of `lseek` and `write`.
--  * Conversion: nandroidfs/conversion.cpp. Wide strings are lists of UTF-16 units; the conversions of
--    Windows to and from UTF-8 are the parameter `Unicode`.
--  * Connection: the client, nandroidfs/Connection.cpp, with its two caches. `Client` is the object,
--    `Connection.Requests` and `Connection.Listing` are its requests; the clock is a parameter.
--    `Connection.DataLog` is the thread of the debug build that prints how much was moved.
--  * Session: the client and the daemon together. `reply` is what the daemon's loop sends on the
--    bytes of a request, and the client reads it.
--  * Operations: Dokan's callbacks, nandroidfs/operations.cpp, over the client. `Call` is what a
--    callback works on; `handler` is what its macros do with an exception.
--    `Operations.Callbacks` is the table of all callbacks.
--  * Text: std::string as it is used to cut a text into lines, and the lines of a text.
--  * Nandroid: one device, nandroidfs/Nandroid.cpp. `begin`, the search for a drive letter and the
--    destructor run over the parameter `World`; `Nandroid.Start` is the thread of `begin` and that of
--    the daemon's output as a step relation.
--  * DeviceTracker: nandroidfs/DeviceTracker.cpp, the instances and the devices that failed. What each
--    device does is a `World`; `program_ended` is std::terminate.
--  * Adb: nandroidfs/Adb.cpp. What Windows does for a command line is the parameter `Windows`;
--    `Adb.Handles` is the handles of a process.
--  * Logger: nandroidfs/Logger.cpp and Logger.hpp; a message comes formatted.
--  * Main: nandroidfs/main.cpp, the loop over the devices as a list of rounds.
--  * TrayMenu: nandroidfs/TrayMenu.cpp, its resources over what the calls of Windows return;
--    `TrayMenu.Messages` is its messages, the console and its handler, `TrayMenu.Window` the thread of
--    the window and that of the program as a step relation.
--  * Sockets: the loops over `send` and over the addresses in nandroidfs/Connection.cpp, and, in
--    `Sockets.Lifetime`, what its constructor and destructor start, open and close.
--  * Server: the daemon's nandroid_daemon/src/main.cpp, over the results of the calls on sockets.
--  * Cache: TimedCache of nandroidfs/TimedCache.hpp. A clock reading is an argument. `Cache.Stat` is
--    nandroidfs/StatCache.cpp, an older TimedCache that no build file names.
--
-- Machine integers: a value of w bits is a number, and where the code may exceed w bits `% 2 ^ w` is
-- written out. A length
-- that is handed over as `int` is `int_length`: from 2 ^ 31 on it is negative, and nothing is moved.
-- The counters of the daemon's loops are `int`s that index a buffer: `undefined` is an index past
-- their largest value.
--
-- Fuel: the loops that run until something happens take fuel, and running out of it is a result of
-- its own (`none`, `unfinished` or `stuck`). `Serial.Writer.write_exact` takes 2 rounds,
-- `Serial.Reader.read_exact` two more than the bytes wanted, a read or a write of a file and the loop
-- around `send` one for each byte, the loop over the entries of a listing and those over newlines one
-- more than there are bytes to come, and the search for a drive letter one for each letter;
-- `handle_messages` is given more fuel than the stream has bytes.
--
-- Not modelled: the message boxes, the handles of the daemon's process, and the lookup of the
-- program's own path. Locks make an operation one step; the start of a daemon, the thread of the tray
-- menu and the data log are modelled with their threads interleaved. A callback that outlives the
-- instance it belongs to is not modelled.
pub mod Adb
pub mod Base
pub mod Cache
pub mod Connection
pub mod Conversion
pub mod Daemon
pub mod DeviceTracker
pub mod Exec
pub mod Logger
pub mod Main
pub mod Nandroid
pub mod Operations
pub mod Path
pub mod Protocol
pub mod Serial
pub mod Server
pub mod Session
pub mod Sockets
pub mod Text
pub mod TrayMenu
pub mod Wire
