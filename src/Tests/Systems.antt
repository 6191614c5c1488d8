-- ===== src/Tests/Systems.antt =====
-- The theorems on the program as it runs, at a run with a subscriber and a restore.
use uclip_daemon.System.Frame.{unsent}
use uclip_daemon.System.{store_row, announce}
use uclip_daemon.EventLoop.{published, published_of, send_entry}
use uclip_daemon.Daemon.Types.{EntrySummary, entry_added}
use uclip_daemon.Daemon.Server.Transcript.{goes_on}
use uclip_daemon.Tests.Channel.{counting, receive_at}
use uclip_daemon.System.Restores.Runs.{awaited_lem, IsUnderWay}
use uclip_daemon.System.Restores.Answered.{IsTold, restore_answered}
use uclip_daemon.EventLoop.{PendingRestore, handle_restore}
use uclip_daemon.EventLoop.Answers.{replies-handle_restore}
use uclip_daemon.EventLoop.Frames.{on_outcome-OnlyEntries}
use uclip_daemon.Io.Keeps.{drain_pending_reads-Keeps}
use uclip_daemon.App.Steady.{dispatch_all-IsSteady}
use uclip_daemon.HashMap.Laws.{is_some}
use uclip_daemon.Daemon.Types.{DaemonResponse, RequestEnvelope}
use uclip_daemon.Daemon.Server.{response}
use uclip_daemon.Daemon.Server.Subscription.{client_of}
use uclip_daemon.System.{is_over, reply_of}
use uclip_daemon.System.Delivery.{IsDelivered}
use uclip_daemon.System.Delivery.Runs.{accepted-IsDelivered}
use uclip_daemon.System.Delivery.Mirror.{IsNoNotice, events_of, accepted_mirrors}
use uclip_daemon.System.Listed.{event_total, waiting, boot-IsBehind}
use uclip_daemon.EventLoop.Frames.{replay}
use uclip_daemon.EventLoop.Behind.{IsBehind}
use uclip_daemon.Config.{max_mimes_per_selection}
use uclip_daemon.System.{
  storing, System, Task, accepted, boot, asks_restore, connect, dispatch, stored_all, serve_request,
  read, receive, resolved, by_reply, thread, accept, turn, ask, Turn, Steps, here, next,
}
use uclip_daemon.Daemon.Server.{
  Client, line, step, handle_line, handle_parsed, handle_request, reply, write, line_bytes,
  send_event, continue,
}
use uclip_daemon.Daemon.Server.Serve.{update}
use uclip_daemon.Text.Utf8.{encode_all}
use uclip_daemon.App.{remove_offer}
use uclip_daemon.History.Content.Views.{primary_mime}
use uclip_daemon.EventLoop.{LoopState}
use uclip_daemon.EventLoop.Startup.{first_loop}
use uclip_daemon.EventLoop.{on_outcome, is_echo, prune}
use uclip_daemon.Text.Utf8.{from_utf8_lossy}
use uclip_daemon.Text.Sort.{insert_sorted, sort_by}
use uclip_daemon.History.State.{add_content, add_grouped, is_repeat, latest, push_entry, get_entry}
use uclip_daemon.History.Content.{
  build_text, choose_primary, classify, distinct_html, first_held, from_blobs, from_split, rank,
  sort_images, split_blobs, text_data,
}
use uclip_daemon.Mime.{pick_mimes, is_text_mime}
use uclip_daemon.HashMap.{get, insert, contains_key, remove}
use uclip_daemon.Base.{
  ◌^◌, ◌*◌, All, trim_front, ℕ, ◌++◌, ◌∙◌, ◌<◌, ◌≡◌, refl, ap, inr, String, List, [], ◌∷◌, true,
  Option, none, some, arith,
}
use uclip_daemon.Text.{Chars}
use uclip_daemon.Tests.{in_order, noon}
use uclip_daemon.Tests.Runs.{proxy, connection, connected_state, connection_made}
use uclip_daemon.App.{
  push_mime, push_pending_read, insert_offer, push_offer_mime, set_selection, offer_mimes, AppState,
  delivers,
}
use uclip_daemon.App.Dispatch.{
  request_mime, destroy_taken, request_all, dispatch_offer, change_selection, request_offered,
  dispatch_device, WaylandEvent, device_event, offer_event, data_offer, selection, piped,
  dispatch_event, dispatch_all,
}
use uclip_daemon.Io.{
  group_read, label, note_truncated, outcome_of, read_bounded, store_blobs, take_read, read_all,
  store_all, ReadOutcome, stored, drain_pending_reads,
}
use uclip_daemon.Daemon.Types.{ServerEvent, subscribe, restore}
use uclip_daemon.Daemon.Broadcast.{value}
use uclip_daemon.Daemon.Server.{Parsed, request}
use uclip_daemon.Daemon.Server.Serve.{get_elem?}

-- An empty line subscribes, any other one asks for entry 1.
abbrev parse : Chars → Parsed
parse [] = request (record { v = 1; id = "s"; req = subscribe })
parse (c ∷ l) = request (record { v = 1; id = "r"; req = restore 1 })

abbrev find_id : Chars → Option String
find_id l = none

abbrev events : List WaylandEvent
events =
    device_event (λ m. piped (delivers [])) (data_offer (proxy 4))
    ∷ offer_event (proxy 4) "text/plain"
    ∷ device_event (λ m. piped (delivers (104 ∷ 105 ∷ []))) (selection (some (proxy 4)))
    ∷ []

abbrev copied : AppState × List ReadOutcome
copied = drain_pending_reads in_order (λ o. noon) (dispatch_all in_order connected_state events)

copied_outcomes : copied.1 ≡ stored 1 "text/plain" ∷ []
unfolding drain_pending_reads dispatch_all dispatch_event store_all read_all dispatch_device
    request_offered offer_mimes get change_selection set_selection dispatch_offer push_offer_mime
    insert_offer insert request_all pick_mimes push_mime request_mime push_pending_read
    destroy_taken trim_front contains_key remove build_text choose_primary classify distinct_html
    first_held from_blobs from_split rank sort_images split_blobs text_data add_content add_grouped
    is_repeat latest push_entry group_read label note_truncated outcome_of read_bounded store_blobs
    take_read is_text_mime insert_sorted sort_by from_utf8_lossy remove_offer get_entry primary_mime
copied_outcomes = refl

abbrev copied_loop : LoopState
copied_loop = record (first_loop connected_state) { app = copied.0 }

abbrev shown : LoopState
shown = on_outcome 0 0 copied_loop (stored 1 "text/plain")

shown_row : (e : EntrySummary) × (published 0 0 copied_loop (stored 1 "text/plain") ≡ some e)
unfolding drain_pending_reads dispatch_all dispatch_event store_all read_all dispatch_device
    request_offered offer_mimes get change_selection set_selection dispatch_offer push_offer_mime
    insert_offer insert request_all pick_mimes push_mime request_mime push_pending_read
    destroy_taken trim_front contains_key remove build_text choose_primary classify distinct_html
    first_held from_blobs from_split rank sort_images split_blobs text_data add_content add_grouped
    is_repeat latest push_entry group_read label note_truncated outcome_of read_bounded store_blobs
    take_read is_text_mime insert_sorted sort_by from_utf8_lossy published published_of is_echo
    prune get_entry remove_offer
shown_row = (_, refl)

abbrev sent_loop : LoopState
sent_loop = send_entry (record shown { broadcast = [] }) shown_row.0

receive_shown : receive_at sent_loop.broadcast 0 ≡ some (value (entry_added shown_row.0), 1)
unfolding receive_at get_elem?
receive_shown = refl

nothing_more : receive_at sent_loop.broadcast 1 ≡ none
unfolding receive_at get_elem?
nothing_more = refl

-- A client connects before the compositor does, and subscribes; a copy is stored, and the client
-- has got all that was broadcast.
record Notified : Type 0 where
  end : System counting
  run : Steps counting parse find_id (accepted counting (boot counting)) end
  task : Task counting
  client : Client
  is_there : get_elem? end.tasks 0 ≡ some task
  runs : task.state ≡ continue client
  unnoticed : All IsNoNotice client.sent
  caught_up : receive_at end.loop.broadcast task.receiver ≡ none
  few_events : max_mimes_per_selection * event_total counting parse find_id run < 2 ^ 63

notified : Notified
unfolding asks_restore step handle_line handle_parsed handle_request reply write line_bytes
    encode_all update get_elem? send_event event_total
notified = record {
  end = _;
  run =
      next
        (next
          (next
            (next
              (next (next here (thread (connect connection refl connection_made))) (
                turn {readable = true} {writes = true} 0 refl
                  (read (line []) refl refl (inr (inr ([], refl))) refl)))
              (thread (dispatch in_order (λ o. noon) events refl)))
            (thread (store_row 0 0 (ap storing copied_outcomes) shown_row.1)))
          (thread (announce refl)))
        (turn {readable = true} {writes = true} 0 refl (receive refl refl refl receive_shown));
  task = _;
  client = _;
  is_there = refl;
  runs = refl;
  unnoticed = ((λ h. cc), ((λ h. cc), tt));
  caught_up = nothing_more;
  few_events = omega arith;
}

accepted-IsDelivered_example :
    (task : Task counting) × (get_elem? notified.end.tasks 0 ≡ some task)
    × IsDelivered counting [] notified.end.loop.broadcast task
accepted-IsDelivered_example =
    accepted-IsDelivered counting parse find_id (boot counting) notified.end notified.run

accepted_mirrors_example :
    (changes : List ServerEvent) × (events_of notified.client.sent ++ unsent notified.end.phase
      ≡ changes)
    × (replay [] changes ≡ notified.end.loop.snapshot)
accepted_mirrors_example =
    accepted_mirrors counting parse find_id (boot counting) notified.end notified.task
      notified.client notified.run notified.is_there notified.runs notified.unnoticed
      notified.caught_up

abbrev asked_for : PendingRestore
asked_for = record { entry_id = 1; reply = 0 }

served_reply :
    (r : DaemonResponse) × (reply_of 0
        (handle_restore in_order 0 (proxy 9) sent_loop asked_for).replies
      ≡ some r)
unfolding reply_of
served_reply =
    let (r, e, fits) =
      replies-handle_restore in_order 0 (proxy 9) sent_loop asked_for shown_manager in
    (
      r,
      ap (reply_of 0) e
          ∙ ap (λ (rs : List (ℕ × DaemonResponse)). reply_of 0 (rs ++ (0, r) ∷ []))
              (on_outcome-OnlyEntries 0 0 copied_loop (stored 1 "text/plain")).same_replies,
    )
  where
    shown_manager : is_some shown.app.manager ≡ true
    shown_manager =
        ap is_some (
          (on_outcome-OnlyEntries 0 0 copied_loop (stored 1 "text/plain")).kept.2
          ∙ (drain_pending_reads-Keeps in_order (λ o. noon)
              (dispatch_all in_order connected_state events)).2)
        ∙ (dispatch_all-IsSteady in_order connected_state events).manager_kept

-- A client asks for the entry before it is stored; the thread has answered it.
record Asked : Type 0 where
  end : System counting
  run : Steps counting parse find_id (boot counting) end
  task : Task counting
  client : Client
  is_there : get_elem? end.tasks 0 ≡ some task
  runs : task.state ≡ continue client
  awaits : task.awaits ≡ some (1 ∷ [], 0)
  after : Task counting
  resolves : Turn counting parse find_id end task true true after
  few_events : max_mimes_per_selection * event_total counting parse find_id run < 2 ^ 63

asked : Asked
unfolding asks_restore step line_bytes encode_all update get_elem? event_total is_over
asked = record {
  end = _;
  run =
      next
        (next
          (next
            (next
              (next
                (next (next (next here accept) (thread (connect connection refl connection_made)))
                  (ask 0 (1 ∷ []) refl refl refl refl refl (omega arith)))
                (thread (dispatch in_order (λ o. noon) events refl)))
              (thread (store_row 0 0 (ap storing copied_outcomes) shown_row.1)))
            (thread (announce refl)))
          (thread (stored_all refl)))
        (thread (serve_request in_order 0 (proxy 9) refl refl));
  task = _;
  client = _;
  is_there = refl;
  runs = refl;
  awaits = refl;
  after = _;
  resolves = resolved (1 ∷ []) refl refl (by_reply served_reply.1);
  few_events = omega arith;
}

restore_answered_example :
    (q : RequestEnvelope) × (id : ℕ) × (r : DaemonResponse) × (parse (1 ∷ []) ≡ request q)
    × (q.req ≡ restore id)
    × IsTold asked.end id 0 r
    × ((client_of asked.after.state).sent
        ≡ asked.client.sent ++ response (record { v = 1; id = q.id; resp = r }) ∷ [])
    × (goes_on asked.after.state ≡ true)
    × (asked.after.awaits ≡ none)
restore_answered_example =
    restore_answered counting parse find_id asked.end 0 asked.task true true asked.after
      asked.client (1 ∷ []) 0 asked.run asked.is_there asked.runs asked.awaits asked.resolves

awaited_lem_example :
    (id : ℕ) × (asks_restore parse (line (1 ∷ [])) ≡ some id)
    × IsUnderWay counting parse find_id asked.end id 0
awaited_lem_example =
    awaited_lem counting parse find_id asked.end 0 asked.task (1 ∷ []) 0 asked.run asked.is_there
      asked.awaits

boot-IsBehind_example :
    IsBehind asked.end.loop.app.clipboard asked.end.loop.snapshot (waiting asked.end.phase)
boot-IsBehind_example = boot-IsBehind counting parse find_id asked.end asked.run asked.few_events
