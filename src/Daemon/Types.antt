-- ===== src/Daemon/Types.antt =====
-- src/daemon/types.rs: the messages between the daemon and its clients. Their JSON form is
-- serde's, and not modelled.
use uclip_daemon.Base.{ℕ, ◌/◌, ◌%◌, ◌^◌, ◌*◌, String, List, Bool, take, min}
use uclip_daemon.Text.{Chars}
use uclip_daemon.Error.{ClipboardError, message}
use uclip_daemon.History.Content.{ClipboardContent, text_content, image_content, mixed_content}
use uclip_daemon.History.State.{
  SystemTime, since_epoch, before_epoch, ClipboardEntry, mime_type, is_text, preview,
}

abbrev pub preview_chars : ℕ
preview_chars = 200

abbrev pub max_list_limit : ℕ
max_list_limit = 100

abbrev pub max_line_bytes : ℕ
max_line_bytes = 64 * 1024

pub data EntryKind : Type 0 where
  text image mixed : EntryKind

pub record EntrySummary : Type 0 where
  pub id : ℕ
  pub timestamp_millis : ℕ
  pub kind : EntryKind
  pub primary_mime : String
  pub preview : Chars
  pub has_text : Bool

pub data UiRequest : Type 0 where
  list : ℕ → ℕ → UiRequest
  restore : ℕ → UiRequest
  ping subscribe : UiRequest

pub data DaemonResponse : Type 0 where
  entries : ℕ → List EntrySummary → DaemonResponse
  restored : ℕ → DaemonResponse
  pong subscribed : DaemonResponse
  error : Chars → DaemonResponse

pub data ServerEvent : Type 0 where
  entry_added : EntrySummary → ServerEvent
  selection_cleared : ServerEvent

pub record RequestEnvelope : Type 0 where
  pub v : ℕ
  pub id : String
  pub req : UiRequest

pub record ResponseEnvelope : Type 0 where
  pub v : ℕ
  pub id : String
  pub resp : DaemonResponse

pub record EventEnvelope : Type 0 where
  pub v : ℕ
  pub event : ServerEvent

-- The version of an envelope that does not name one.
abbrev pub default_version : ℕ
default_version = 1

unfoldable pub truncate_preview : Chars → ℕ → Chars
truncate_preview s max_chars = take max_chars s

-- A client-supplied limit, at most `max_list_limit`.
unfoldable pub clamp_limit : ℕ → ℕ
clamp_limit limit = min limit max_list_limit

unfoldable pub response_of_error : ClipboardError → DaemonResponse
response_of_error err = error (message err)

unfoldable pub kind_of : ClipboardContent → EntryKind
kind_of (text_content t) = text
kind_of (image_content i) = image
kind_of (mixed_content m) = mixed

-- `duration_since(UNIX_EPOCH)`, in milliseconds as a `u64`; 0 before the epoch.
unfoldable pub millis : SystemTime → ℕ
millis (since_epoch nanos) = nanos / 1000000 % 2 ^ 64
millis (before_epoch nanos) = 0

unfoldable pub summary : ClipboardEntry → EntrySummary
summary e = record {
  id = e.id;
  timestamp_millis = millis e.timestamp;
  kind = kind_of e.content;
  primary_mime = mime_type e;
  preview = truncate_preview (preview e) preview_chars;
  has_text = is_text e;
}
