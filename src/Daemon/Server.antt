-- ===== src/Daemon/Server.antt =====
-- src/daemon/server.rs: the socket, and the loop that serves one client.
-- JSON is serde's: the parsers of a line are parameters. What the rest of the system answers
-- during one round of the loop (the snapshot, the Wayland thread, the socket) is an `Answers`.
pub mod Replies
pub mod Subscription
pub mod Bind
pub mod Stale
pub mod Transcript
pub mod Serve
pub mod Isolation
use uclip_daemon.Base.{
  ℕ, String, List, [], ◌∷◌, ◌++◌, Bool, true, false, Option, none, some, is_empty, last, length,
  ltb, eqb, if◌then◌else◌,
}
use uclip_daemon.Base.Order.{codes}
use uclip_daemon.Text.{Chars, decimal}
use uclip_daemon.Text.Utf8.{encode_all}
use uclip_daemon.History.Content.{unwrap_or}
use uclip_daemon.Daemon.Types.{
  EntrySummary, UiRequest, list, restore, ping, subscribe, DaemonResponse, entries, pong,
  subscribed, error, ServerEvent, RequestEnvelope, ResponseEnvelope, EventEnvelope, max_line_bytes,
}
use uclip_daemon.Daemon.Snapshot.{list_snapshot}

ends_with_slash : Option ℕ → Bool
ends_with_slash none = false
ends_with_slash (some c) = eqb c b'/'

-- `PathBuf::from(dir).join(name)`, for a relative name.
unfoldable pub join_path : Chars → Chars → Chars
unfolding ends_with_slash
join_path dir name =
    if is_empty dir
    then name
    else if ends_with_slash (last dir)
    then dir ++ name
    else dir ++ (codes "/" ++ name)

-- `xdg` is the variable XDG_RUNTIME_DIR, `uid` the user's id.
unfoldable pub socket_path : Option Chars → ℕ → Chars
socket_path (some runtime_dir) uid = join_path runtime_dir (codes "uclip.sock")
socket_path none uid = codes "/tmp/uclip-" ++ (decimal uid ++ codes ".sock")

pub data Frame : Type 0 where
  response : ResponseEnvelope → Frame
  event_frame : EventEnvelope → Frame

-- How the Wayland thread and the channel to it answer a restore.
pub data RestoreAnswer : Type 0 where
  channel_closed : RestoreAnswer
  replied : DaemonResponse → RestoreAnswer
  reply_dropped : RestoreAnswer
  timed_out : RestoreAnswer

pub record Answers : Type 0 where
  -- `none` if the lock is poisoned.
  pub snapshot : Option (List EntrySummary)
  pub restores : ℕ → RestoreAnswer
  pub writes : Bool

-- What `select!` hands to the loop.
pub data Input : Type 0 where
  eof : Input
  line : Chars → Input
  read_failed : Chars → Input
  event : ServerEvent → Input
  lagged : ℕ → Input
  closed : Input

pub record Client : Type 0 where
  pub is_subscribed : Bool
  pub sent : List Frame
  pub forwarded : List ℕ

abbrev pub connected : Client
connected = record { is_subscribed = false; sent = []; forwarded = [] }

pub data Ending : Type 0 where
  returned_ok returned_err : Ending

pub data Next : Type 0 where
  continue : Client → Next
  stop : Client → Ending → Next

unfoldable pub write : Answers → Client → Frame → Next
write a c frame =
    if a.writes then continue (record c { sent = c.sent ++ frame ∷ [] }) else stop c returned_err

-- `if let Err(err) = send_envelope(…) { return Err(err); }`
unfoldable pub reply : Answers → Client → String → DaemonResponse → Next
reply a c id resp = write a c (response (record { v = 1; id = id; resp = resp }))

-- `let _ = send_envelope(…)`
unfoldable pub reply_best_effort : Answers → Client → String → DaemonResponse → Next
reply_best_effort a c id resp =
    let frame = response (record { v = 1; id = id; resp = resp }) in
    if a.writes then continue (record c { sent = c.sent ++ frame ∷ [] }) else continue c

unfoldable pub send_event : Answers → Client → ServerEvent → Next
send_event a c e = write a c (event_frame (record { v = 1; event = e }))

unfoldable pub list_response : Option (List EntrySummary) → ℕ → ℕ → DaemonResponse
list_response none offset limit = error (codes "history unavailable")
list_response (some snap) offset limit =
    let (total, page) = list_snapshot snap offset limit in entries total page

unfoldable pub restore_response : RestoreAnswer → DaemonResponse
restore_response channel_closed = error (codes "daemon shutting down")
restore_response (replied r) = r
restore_response reply_dropped = error (codes "restore failed: wayland thread gone")
restore_response timed_out = error (codes "restore timed out")

unfoldable pub forward : RestoreAnswer → ℕ → Client → Client
forward channel_closed entry_id c = c
forward _ entry_id c = record c { forwarded = c.forwarded ++ entry_id ∷ [] }

-- The `match request.req`.
unfoldable pub handle_request : Answers → Client → String → UiRequest → Next
handle_request a c id (list offset limit) = reply a c id (list_response a.snapshot offset limit)
handle_request a c id (restore entry_id) =
    reply a (forward (a.restores entry_id) entry_id c) id (restore_response (a.restores entry_id))
handle_request a c id ping = reply a c id pong
handle_request a c id subscribe = reply a (record c { is_subscribed = true }) id subscribed

pub data Parsed : Type 0 where
  request : RequestEnvelope → Parsed
  invalid : Chars → Parsed

unfoldable pub too_long : ℕ → DaemonResponse
too_long bytes = error (
    codes "line too long: "
    ++ (decimal bytes ++ (codes " bytes (max " ++ (decimal max_line_bytes ++ codes ")"))))

unfoldable pub handle_parsed : Answers → Client → Option String → Parsed → Next
handle_parsed a c id (request r) = handle_request a c r.id r.req
handle_parsed a c id (invalid e) =
    reply a c (unwrap_or id "") (error (codes "invalid request: " ++ e))

-- `line.len()`, in bytes.
unfoldable pub line_bytes : Chars → ℕ
line_bytes l = length (encode_all l)

-- `parse` reads a request, and `find_id` the string field "id" of any JSON value.
module _ (parse : Chars → Parsed) (find_id : Chars → Option String) where
  unfoldable pub handle_line : Answers → Client → Chars → Next
  handle_line a c l =
      if ltb max_line_bytes (line_bytes l)
      then reply_best_effort a c "" (too_long (line_bytes l))
      else handle_parsed a c (find_id l) (parse l)

  -- One round. The broadcast channel is polled only if the client has subscribed.
  unfoldable pub step : Answers → Client → Input → Next
  step a c eof = stop c returned_ok
  step a c (read_failed e) = stop c returned_err
  step a c (line l) = handle_line a c l
  step a c (event e) = if c.is_subscribed then send_event a c e else continue c
  step a c (lagged n) =
      if c.is_subscribed then reply a c "" (error (codes "lagged, re-list")) else continue c
  step a c closed = if c.is_subscribed then stop c returned_ok else continue c

  unfoldable pub handle_client : Client → List (Answers × Input) → Next
  unfolding step
  handle_client c [] = continue c
  handle_client c ((a, i) ∷ inputs) = elim (step a c i) [
    | continue c' ↦ handle_client c' inputs
    | stop c' e ↦ stop c' e
  ]
