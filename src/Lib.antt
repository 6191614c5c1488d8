-- ===== src/Lib.antt =====
-- uclip_daemon: a Wayland clipboard monitor. It reads what other programs copy, keeps a bounded
-- history in memory, puts an entry of the history back on the clipboard on request, and serves
-- user interfaces over a Unix socket.
--
-- One thread talks to the compositor. Its handlers cache the types of an offer and request some of
-- them through pipes; its loop drains the pipes, groups the payloads of an offer into one entry,
-- adds a summary to a snapshot that is shared with the socket tasks, and broadcasts it. A task for
-- each client answers lists from the snapshot and passes restores to the loop, whose answer it
-- relays.
--
-- Parts, and the files (under src/ of the repository) they model:
--   Config      config.rs: the constants.
--   Mime        mime.rs: `is_text_mime`, `pick_mimes`.
--   History     clipboard/history.rs. Content: `ClipboardContent`, `from_blobs`, `build_text`;
--               Content/Views: its readers and its equality; State: `ClipState`, with `get` as
--               `get_entry`.
--   Error       error.rs: `ClipboardError` with its messages.
--   App         clipboard/state.rs: `AppState`, `restore_entry`. The objects of the connection are
--               a protocol id and a serial, and the requests to the compositor are kept in a list
--               in their order. App/Dispatch: the handlers of clipboard/wayland/. App/Session: the
--               events of a whole session. App/Selection: the announcements of the selection.
--   Io          clipboard/io.rs: `read_bounded`, `drain_pending_reads`.
--   Daemon      daemon/types.rs, daemon/snapshot.rs and, in Daemon/Server, `socket_path` and
--               `handle_client` of daemon/server.rs. Daemon/Server/Bind: `bind`, as calls of the
--               file system and their answers. Daemon/Server/Serve: `serve`, as a list of tasks.
--   EventLoop   main.rs: `is_echo`, `handle_restore` and the loop over the outcomes of a drain.
--               EventLoop/Run: the rounds of `run_event_loop` and its ends. EventLoop/Startup:
--               `setup_connection` and `main`. A `Round` is what the compositor, the system and the
--               clients give to one round, a `World` what they give to a whole run.
--   System      main.rs and daemon/server.rs together: the Wayland thread and the tasks of the
--               connections as one step relation. A step of the thread is one access to what is
--               shared (the row of an outcome listed; its event sent; a request taken and
--               answered), a step of a task one round of its loop; a task that waits for the answer
--               to a restore takes no other step. A thread that returns discards the requests.
--               Daemon/Broadcast: the broadcast channel, an interface with the documented laws.
--   Display     display.rs.
--   UnitTests   the tests of these files, as Boolean functions on the model, with their evaluation.
-- Base, HashMap and Text hold what these share: Boolean tests, lists over native numbers, maps, and
-- the parts of the standard library that the source uses (UTF-8 decoding with replacement,
-- `lines().next()`, stable sorting, decimal numbers).
--
-- How the code is rendered. A handler maps a state to a state, with its results beside it. A
-- `HashMap` is an association list; the order in which it is visited is unspecified, so functions
-- that iterate take it as an argument (`Iteration`), which may be any permutation. Text that is
-- walked is a list of scalar values, text that is only compared is a native string. Ids wrap at
-- 2 ^ 64, as in a release build; theorems that need fresh ids ask that the counter has not reached
-- the end. Loops are recursion on a list; the digits of a number take fuel `n + 1` for the number
-- `n`, which is enough since each digit divides by ten.
--
-- Parameters: the answers of the file system and of the connection, the iteration orders, the
-- clocks, what a pipe delivers, whether a pipe, a flush or a write succeeds, the proxies that the
-- connection creates, the JSON parser, the broadcast channel, and how a time is printed.
--
-- Not modelled: JSON (serde), and logging. In Daemon/Server and EventLoop a client sees the snapshot
-- and the answers that it is given, and a round the requests that have arrived; System puts them
-- together. There a line arrives whole, and the program goes on to take steps after the thread has
-- returned, though its exit ends the tasks soon.
pub mod Base
pub mod HashMap
pub mod Config
pub mod Mime
pub mod Text
pub mod History
pub mod Error
pub mod App
pub mod Io
pub mod Daemon
pub mod EventLoop
pub mod System
pub mod Display
mod UnitTests
mod Tests
