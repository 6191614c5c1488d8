-- ===== src/Error.antt =====
-- src/error.rs: the failures of the daemon, and the text of each.
use uclip_daemon.Base.{ℕ, ◌++◌}
use uclip_daemon.Base.Order.{codes}
use uclip_daemon.Text.{Chars, decimal}

pub data ClipboardError : Type 0 where
  no_seat no_manager no_device : ClipboardError
  entry_not_found : ℕ → ClipboardError
  wayland io : Chars → ClipboardError

-- `err.to_string()`
unfoldable pub message : ClipboardError → Chars
message no_seat = codes "no wl_seat found: is a Wayland compositor running?"
message no_manager =
    codes "no ext_data_control_manager_v1 found: compositor does not support clipboard managers"
message no_device = codes "data device missing: compositor revoked access or setup incomplete"
message (entry_not_found id) = codes "clipboard entry " ++ (decimal id ++ codes " not found")
message (wayland e) = codes "wayland error: " ++ e
message (io e) = codes "clipboard I/O error: " ++ e

-- `From<std::io::Error>` and `From<Errno>`, of an error with this text.
unfoldable pub from_io_error : Chars → ClipboardError
from_io_error err = io err

unfoldable pub from_errno : Chars → ClipboardError
from_errno err = io err
