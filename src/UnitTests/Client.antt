-- ===== src/UnitTests/Client.antt =====
-- src/daemon/server.rs: its tests of `handle_client`, but for the one with an overlong line. A line
-- is read as the request whose JSON the test sends; what the client reads is the last frame that it
-- was sent.
use uclip_daemon.Text.Utf8.{encode_all}
use uclip_daemon.Base.{
  trim_front, ℕ, zero, suc, ◌*◌, ◌≡◌, refl, String, List, [], ◌∷◌, ◌++◌, Bool, true, false, ◌&&◌,
  Option, none, some, length, last, All,
}
use uclip_daemon.Base.Eq.{string_eq, nat_eq, ◌==◌, list_beq}
use uclip_daemon.Base.Order.{codes}
use uclip_daemon.Text.{Chars, decimal}
use uclip_daemon.History.Content.{head}
use uclip_daemon.Daemon.Types.{
  clamp_limit, EntrySummary, EntryKind, text, UiRequest, list, restore, ping, subscribe,
  DaemonResponse, entries, restored, pong, subscribed, error, ServerEvent, entry_added,
  selection_cleared, RequestEnvelope, ResponseEnvelope,
}
use uclip_daemon.Daemon.Snapshot.{list_snapshot, push_summary}
use uclip_daemon.Daemon.Server.{
  line_bytes, list_response, restore_response, forward, send_event, write, reply, handle_request,
  handle_parsed, handle_line, Frame, response, event_frame, RestoreAnswer, channel_closed, replied,
  Answers, Input, line, event, lagged, connected, Next, continue, stop, Parsed, request, invalid,
  step,
}
use uclip_daemon.UnitTests.{expect, has_part}

abbrev summary : ℕ → EntrySummary
summary id = record {
  id = id;
  timestamp_millis = id * 1000;
  kind = text;
  primary_mime = "text/plain";
  preview = codes "item " ++ decimal id;
  has_text = true;
}

abbrev seeded_snapshot : ℕ → List EntrySummary
seeded_snapshot zero = []
seeded_snapshot (suc n) = push_summary (seeded_snapshot n) (summary (suc n))

abbrev req : String → UiRequest → RequestEnvelope
req id q = record { v = 1; id = id; req = q }

-- The rest of the daemon, with a snapshot of `n` rows and an answer to restores.
abbrev daemon : ℕ → RestoreAnswer → Answers
daemon n answer = record {
  snapshot = some (seeded_snapshot n);
  restores = λ _. answer;
  writes = true;
}

abbrev takes : Answers → (Chars → Parsed) → Input → Next → Next
takes a parse i (continue c) = step parse (λ _. none) a c i
takes a parse i (stop c e) = stop c e

-- `TestClient::send`, and `raw_send` of a line that is no request.
abbrev send : Answers → RequestEnvelope → Next → Next
send a env n = takes a (λ _. request env) (line []) n

abbrev raw_send : Answers → String → Next → Next
raw_send a raw n = takes a (λ _. invalid (codes "expected value")) (line (codes raw)) n

abbrev receives : Answers → Input → Next → Next
receives a i n = takes a (λ _. invalid []) i n

abbrev answered_with : Option Frame → (ResponseEnvelope → Bool) → Bool
answered_with (some (response r)) test = test r
answered_with _ test = false

abbrev next_response : Next → (ResponseEnvelope → Bool) → Bool
next_response (continue c) test = answered_with (last c.sent) test
next_response (stop c e) test = false

abbrev is_text_kind : EntryKind → Bool
is_text_kind text = true
is_text_kind _ = false

-- `e.event == EntryAdded { entry: summary(id) }`
abbrev is_summary : EntrySummary → ℕ → Bool
is_summary s id =
    s.id == id
    && (s.timestamp_millis == id * 1000
        && (is_text_kind s.kind
            && (s.primary_mime == "text/plain"
                && (list_beq s.preview (codes "item " ++ decimal id) && s.has_text))))

abbrev adds : ServerEvent → ℕ → Bool
adds (entry_added s) id = is_summary s id
adds selection_cleared id = false

abbrev event_adds : Option Frame → ℕ → Bool
event_adds (some (event_frame e)) id = adds e.event id
event_adds _ id = false

abbrev next_event_adds : Next → ℕ → Bool
next_event_adds (continue c) id = event_adds (last c.sent) id
next_event_adds (stop c e) id = false

abbrev is_pong : DaemonResponse → Bool
is_pong pong = true
is_pong _ = false

abbrev is_subscribed : DaemonResponse → Bool
is_subscribed subscribed = true
is_subscribed _ = false

abbrev is_restored : DaemonResponse → ℕ → Bool
is_restored (restored entry_id) id = entry_id == id
is_restored _ id = false

abbrev is_error_with : DaemonResponse → String → Bool
is_error_with (error message) part = has_part message (codes part)
is_error_with _ part = false

abbrev forwarded_by : Next → List ℕ
forwarded_by (continue c) = c.forwarded
forwarded_by (stop c e) = c.forwarded

unfoldable list_returns_page_with_id_echo_and_total : Bool
list_returns_page_with_id_echo_and_total =
    next_response (send (daemon 3 channel_closed) (req "r1" (list 1 1)) (continue connected))
      (λ resp. resp.id == "r1" && elim resp.resp [
        | entries total page ↦
            total == 3 && (length page == 1 && expect (head page) (λ (e : EntrySummary). e.id == 2))
        | _ ↦ false
      ])

unfoldable ping_gets_pong : Bool
ping_gets_pong =
    next_response (send (daemon 0 channel_closed) (req "p1" ping) (continue connected))
      (λ resp. resp.id == "p1" && is_pong resp.resp)

unfoldable restore_forwards_to_wayland_thread_and_replies : Bool
restore_forwards_to_wayland_thread_and_replies =
    let a = daemon 1 (replied (restored 7)) in
    let asked = send a (req "rr" (restore 7)) (continue connected) in
    list_beq (forwarded_by asked) (7 ∷ [])
    && (next_response asked (λ resp. resp.id == "rr" && is_restored resp.resp 7)
        && next_response (send a (req "p2" ping) asked) (λ resp. is_pong resp.resp))

unfoldable restore_with_closed_channel_errors_cleanly : Bool
restore_with_closed_channel_errors_cleanly =
    let a = daemon 1 channel_closed in
    let asked = send a (req "rr" (restore 1)) (continue connected) in
    next_response asked (λ resp. resp.id == "rr" && is_error_with resp.resp "shutting down")
    && next_response (send a (req "p2" ping) asked) (λ resp. is_pong resp.resp)

unfoldable malformed_line_errors_but_keeps_connection : Bool
malformed_line_errors_but_keeps_connection =
    let a = daemon 0 channel_closed in
    let sent = raw_send a "this is not json" (continue connected) in
    next_response sent (λ resp. is_error_with resp.resp "invalid request")
    && next_response (send a (req "after" ping) sent) (λ resp. is_pong resp.resp)

-- Two clients subscribe, and get the event that is broadcast then.
unfoldable subscribe_fanout_reaches_both_clients : Bool
subscribe_fanout_reaches_both_clients =
    let a = daemon 1 channel_closed in
    let c1 = send a (req "s1" subscribe) (continue connected) in
    let c2 = send a (req "s2" subscribe) (continue connected) in
    let pushed = event (entry_added (summary 42)) in
    next_response c1 (λ resp. is_subscribed resp.resp)
    && (next_response c2 (λ resp. is_subscribed resp.resp)
        && (next_event_adds (receives a pushed c1) 42 && next_event_adds (receives a pushed c2) 42))

-- Two events were sent to a channel that holds one: the receiver lags by one.
unfoldable lagged_client_gets_resync_error : Bool
lagged_client_gets_resync_error =
    let a = daemon 0 channel_closed in
    let c = send a (req "s1" subscribe) (continue connected) in
    next_response c (λ resp. is_subscribed resp.resp)
    && next_response (receives a (lagged 1) c)
        (λ resp. resp.id == "" && is_error_with resp.resp "re-list")

-- They pass.
tests_pass :
    All
      (λ (b : Bool). b ≡ true)
      (list_returns_page_with_id_echo_and_total ∷ ping_gets_pong
        ∷ restore_forwards_to_wayland_thread_and_replies
        ∷ restore_with_closed_channel_errors_cleanly ∷ malformed_line_errors_but_keeps_connection
        ∷ subscribe_fanout_reaches_both_clients ∷ lagged_client_gets_resync_error ∷ [])
unfolding list_returns_page_with_id_echo_and_total ping_gets_pong
    restore_forwards_to_wayland_thread_and_replies restore_with_closed_channel_errors_cleanly
    malformed_line_errors_but_keeps_connection subscribe_fanout_reaches_both_clients
    lagged_client_gets_resync_error step handle_line handle_parsed handle_request reply write
    send_event forward restore_response list_response list_snapshot clamp_limit push_summary
    trim_front line_bytes encode_all decimal
tests_pass = (refl, (refl, (refl, (refl, (refl, (refl, (refl, tt)))))))
