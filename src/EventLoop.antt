-- ===== src/EventLoop.antt =====
-- src/main.rs: the loop of the Wayland thread: stored copies go to the snapshot and to the
-- subscribers, the echo of an own restore is dropped, and restore requests are carried out.
pub mod Echo
pub mod Restores
pub mod Run
pub mod Startup
pub mod Behind
pub mod Listed
pub mod Storing
pub mod Frames
pub mod Published
pub mod Requests
pub mod Replay
pub mod Rounds
pub mod Setup
pub mod Answers
pub mod Ends
pub mod Lifetime
use uclip_daemon.Base.{
  ℕ, suc, ◌+◌, ◌-◌, ◌*◌, ◌^◌, String, List, [], ◌∷◌, ◌++◌, Bool, true, false, ◌&&◌, Option, none,
  some, ltb, leb, if◌then◌else◌,
}
use uclip_daemon.Base.Eq.{Eq, nat_eq, list_beq}
use uclip_daemon.Text.{Chars, Bytes}
use uclip_daemon.Error.{ClipboardError, no_seat, no_manager}
use uclip_daemon.History.Content.{BlobOrder}
use uclip_daemon.History.State
use uclip_daemon.History.State.{SystemTime, ClipState, ClipboardEntry, get_entry, preview}
use uclip_daemon.App.{
  AppState, Proxy, RestoreResult, ok, err, request, get_data_device, set_device, restore_entry,
}
use uclip_daemon.Io.{ReadOutcome, stored, drain_pending_reads}
use uclip_daemon.Daemon.Types.{
  EntrySummary, summary, DaemonResponse, restored, response_of_error, ServerEvent, entry_added,
}
use uclip_daemon.Daemon.Snapshot.{push_summary}

-- `ECHO_SUPPRESS_SECS`, in nanoseconds.
abbrev pub echo_window : ℕ
echo_window = 5 * 10 ^ 9

-- When the flag was armed, and the preview of the restored entry.
abbrev pub EchoFlag : Type 0
EchoFlag = Option (ℕ × Chars)

-- `Instant::elapsed` is 0 for an instant in the future.
unfoldable pub is_echo : ℕ → EchoFlag → Chars → Bool
is_echo now none preview = false
is_echo now (some (at, expected)) preview = ltb (now - at) echo_window && list_beq expected preview

unfoldable pub prune : ℕ → EchoFlag → EchoFlag
prune now none = none
prune now (some (at, expected)) = if leb echo_window (now - at) then none else some (at, expected)

-- A restore request; `reply` is its one-shot channel.
pub record PendingRestore : Type 0 where
  pub entry_id : ℕ
  pub reply : ℕ

-- The variables of the loop, what was broadcast, and what was answered.
pub record LoopState : Type 0 where
  pub app : AppState
  pub snapshot : List EntrySummary
  pub broadcast : List ServerEvent
  pub expect_echo : EchoFlag
  pub replies : List (ℕ × DaemonResponse)

abbrev pub with_clipboard : LoopState → ClipState → LoopState
with_clipboard l clipboard = record l { app = record l.app { clipboard = clipboard } }

-- Under the lock, which is released before the event is sent.
abbrev pub list_entry : LoopState → EntrySummary → LoopState
list_entry l s = record l { snapshot = push_summary l.snapshot s }

-- `bcast_tx.send`
abbrev pub send_entry : LoopState → EntrySummary → LoopState
send_entry l s = record l { broadcast = l.broadcast ++ entry_added s ∷ [] }

unfoldable pub publish_entry : LoopState → ClipboardEntry → LoopState
publish_entry l entry = send_entry (list_entry l (summary entry)) (summary entry)

unfoldable pub drop_echo : LoopState → ℕ → LoopState
drop_echo l entry_id = record (with_clipboard l (State.remove l.app.clipboard entry_id).0) {
  expect_echo = none;
}

-- The entry is there, with its preview; `now` is the time of the test.
unfoldable pub on_entry : ℕ → LoopState → ℕ → ClipboardEntry → LoopState
on_entry now l entry_id entry =
    if is_echo now l.expect_echo (preview entry)
    then drop_echo l entry_id
    else publish_entry l entry

-- One stored copy; the flag is pruned first, at `checked`.
unfoldable pub on_stored : ℕ → ℕ → LoopState → ℕ → LoopState
on_stored checked now l entry_id =
    let pruned = record l { expect_echo = prune checked l.expect_echo } in
    elim (get_entry pruned.app.clipboard entry_id) [
      | none ↦ pruned
      | some entry ↦ on_entry now pruned entry_id entry
    ]

unfoldable pub on_outcome : ℕ → ℕ → LoopState → ReadOutcome → LoopState
on_outcome checked now l (stored entry_id mime) = on_stored checked now l entry_id
on_outcome checked now l _ = l

unfoldable pub published_of : ℕ → EchoFlag → Option ClipboardEntry → Option EntrySummary
published_of now flag none = none
published_of now flag (some entry) =
    if is_echo now flag (preview entry) then none else some (summary entry)

-- The row that an outcome lists and sends.
unfoldable pub published : ℕ → ℕ → LoopState → ReadOutcome → Option EntrySummary
published checked now l (stored entry_id mime) =
    published_of now (prune checked l.expect_echo) (get_entry l.app.clipboard entry_id)
published checked now l _ = none

-- `clock` gives the two readings of each round.
unfoldable pub on_outcomes : (ℕ → ℕ × ℕ) → ℕ → LoopState → List ReadOutcome → LoopState
on_outcomes clock round l [] = l
on_outcomes clock round l (o ∷ outcomes) =
    on_outcomes clock (round + 1) (on_outcome (clock round).0 (clock round).1 l o) outcomes

unfoldable pub armed : ℕ → Option ClipboardEntry → EchoFlag → EchoFlag
armed now none flag = flag
armed now (some entry) flag = some (now, preview entry)

unfoldable pub answer_restore :
    ℕ → LoopState → Option ClipboardEntry → PendingRestore → AppState × RestoreResult → LoopState
answer_restore now l entry pending (app, ok) = record l {
  app = app;
  expect_echo = armed now entry l.expect_echo;
  replies = l.replies ++ (pending.reply, restored pending.entry_id) ∷ [];
}
answer_restore now l entry pending (app, err e) = record l {
  app = app;
  replies = l.replies ++ (pending.reply, response_of_error e) ∷ [];
}

-- `source` is the proxy that the connection creates.
unfoldable pub handle_restore : BlobOrder → ℕ → Proxy → LoopState → PendingRestore → LoopState
handle_restore it now source l pending =
    answer_restore now l (get_entry l.app.clipboard pending.entry_id) pending
      (restore_entry it l.app source pending.entry_id)

-- `while let Ok(pending) = req_rx.try_recv()`
unfoldable pub handle_restores :
    BlobOrder → (ℕ → ℕ × Proxy) → LoopState → List PendingRestore → LoopState
handle_restores it env l [] = l
handle_restores it env l (p ∷ pending) =
    handle_restores it env (handle_restore it (env p.reply).0 (env p.reply).1 l p) pending
