-- ===== src/Tests/Clients.antt =====
-- The theorems on restores, sessions and connections, at concrete requests.
use uclip_daemon.Base.{
  ℕ, ◌+◌, ◌≡◌, refl, ◌⊎◌, inr, String, List, [], ◌∷◌, true, false, Option, none, some,
}
use uclip_daemon.Base.Eq.{string_eq, nat_eq}
use uclip_daemon.Error.{no_manager, no_device, entry_not_found}
use uclip_daemon.Text.{Chars}
use uclip_daemon.History.State.{ClipboardEntry, get_entry}
use uclip_daemon.App.{
  same_proxy, AppState, delivers, new, Proxy, ok, err, restored_contents, restore_entry,
}
use uclip_daemon.App.Restore.{restore_requests, restore_entry_error, restore_entry_ok}
use uclip_daemon.App.Dispatch.{
  registry_event, offer_event, source_event, device_event, global, cancelled, data_offer, selection,
  piped,
}
use uclip_daemon.App.Ownership.{created, destroyed_count, owned}
use uclip_daemon.App.Selection.{
  destroyed_offers, all_given_up, all_announced, last_announced, given_up, announced,
}
use uclip_daemon.App.Selection.Events.{destroyed_offers-on_events}
use uclip_daemon.App.Session.{
  AppEvent, wayland_event, reads_drained, device_made, restore_asked, on_events, no_source_leaks,
}
use uclip_daemon.Daemon.Types.{ping}
use uclip_daemon.Daemon.Server.{
  Answers, eof, line, stop, connected, returned_ok, returned_err, closed, read_failed, Parsed,
  request, timed_out, handle_client, step,
}
use uclip_daemon.Daemon.Server.Subscription.{IsQuiet, client_of, handle_client-IsQuiet, step-stop}
use uclip_daemon.EventLoop.{LoopState, PendingRestore}
use uclip_daemon.Tests.{in_order, noon, caption}

abbrev proxy : ℕ → Proxy
proxy n = record { protocol_id = n; serial = n }

abbrev saved : ClipboardEntry
saved = record { id = 4; timestamp = noon; content = caption }

abbrev ready : AppState
ready = record new {
  manager = some (proxy 1);
  device = some (proxy 2);
  current_source = some (proxy 3);
  clipboard = record { entries = saved ∷ []; next_id = 5 };
}

saved_found : get_entry ready.clipboard 4 ≡ some saved
unfolding get_entry
saved_found = refl

restore_entry_ok_example : restore_entry in_order ready (proxy 9) 4 ≡ (
  record ready {
    current_source = some (proxy 9);
    requests =
        restore_requests in_order ready (proxy 2) (proxy 9) (restored_contents in_order caption);
  },
  ok,
)
restore_entry_ok_example =
    restore_entry_ok in_order ready (proxy 9) 4 saved (proxy 1) (proxy 2) saved_found refl refl

not_found : (restore_entry in_order ready (proxy 9) 7).1 ≡ err (entry_not_found 7)
unfolding restore_entry get_entry
not_found = refl

restore_entry_error_example :
    ((restore_entry in_order ready (proxy 9) 7).0 ≡ ready)
    × (((get_entry ready.clipboard 7 ≡ none) × (entry_not_found 7 ≡ entry_not_found 7))
        ⊎ ((ready.manager ≡ none) × (entry_not_found 7 ≡ no_manager))
        ⊎ ((ready.device ≡ none) × (entry_not_found 7 ≡ no_device)))
restore_entry_error_example =
    restore_entry_error in_order ready (proxy 9) 7 (entry_not_found 7) not_found

-- A copy is made, stored and restored twice; the second source is cancelled.
abbrev session : List AppEvent
session =
    wayland_event (registry_event (proxy 1) (global 1 "wl_seat" 9))
    ∷ wayland_event (registry_event (proxy 2) (global 2 "ext_data_control_manager_v1" 1))
    ∷ device_made (proxy 3)
    ∷ wayland_event (device_event (λ m. piped (delivers [])) (data_offer (proxy 4)))
    ∷ wayland_event (offer_event (proxy 4) "text/plain")
    ∷ wayland_event
        (device_event (λ m. piped (delivers (104 ∷ 105 ∷ []))) (selection (some (proxy 4))))
    ∷ reads_drained (λ o. noon)
    ∷ restore_asked (proxy 8) 1
    ∷ restore_asked (proxy 9) 1
    ∷ wayland_event (source_event (proxy 9) (record { contents = [] }) cancelled)
    ∷ []

no_source_leaks_example :
    created (proxy 9) (on_events in_order new session).requests
    ≡ destroyed_count (proxy 9) (on_events in_order new session).requests
      + owned (proxy 9) (on_events in_order new session).current_source
no_source_leaks_example = no_source_leaks in_order session (proxy 9)

-- An offer is announced twice, another one follows, and then none.
abbrev selections : List AppEvent
selections =
    wayland_event (device_event (λ m. piped (delivers [])) (data_offer (proxy 4)))
    ∷ wayland_event (device_event (λ m. piped (delivers [])) (selection (some (proxy 4))))
    ∷ wayland_event (device_event (λ m. piped (delivers [])) (selection (some (proxy 4))))
    ∷ restore_asked (proxy 8) 1
    ∷ wayland_event (device_event (λ m. piped (delivers [])) (selection (some (proxy 5))))
    ∷ wayland_event (device_event (λ m. piped (delivers [])) (selection none))
    ∷ []

destroyed_offers-on_events_example :
    (destroyed_offers (on_events in_order new selections).requests
      ≡ all_given_up none (all_announced selections))
    × ((on_events in_order new selections).current_selection
        ≡ last_announced none (all_announced selections))
destroyed_offers-on_events_example = destroyed_offers-on_events in_order selections

two_given_up : all_given_up none (all_announced selections) ≡ proxy 4 ∷ proxy 5 ∷ []
unfolding all_given_up given_up all_announced announced same_proxy
two_given_up = refl

abbrev loop : LoopState
loop = record { app = ready; snapshot = []; broadcast = []; expect_echo = none; replies = [] }

abbrev wanted : PendingRestore
wanted = record { entry_id = 4; reply = 11 }

-- Every line is a ping.
abbrev parse : Chars → Parsed
parse l = request (record { v = 1; id = "a"; req = ping })

abbrev find_id : Chars → Option String
find_id l = none

abbrev answers : Answers
answers = record { snapshot = none; restores = λ n. timed_out; writes = true }

handle_client-IsQuiet_example :
    IsQuiet
      (client_of (handle_client parse find_id connected ((answers, line []) ∷ (answers, eof) ∷ [])))
handle_client-IsQuiet_example =
    handle_client-IsQuiet parse find_id ((answers, line []) ∷ (answers, eof) ∷ []) connected
      (inr tt)

ended : step parse find_id answers connected eof ≡ stop connected returned_ok
unfolding step
ended = refl

step-stop_example :
    ((answers.writes ≡ false) × (returned_ok ≡ returned_err))
    ⊎ ((x : Chars) × (eof ≡ read_failed x) × (returned_ok ≡ returned_err))
    ⊎ (◌≡◌ eof eof × (returned_ok ≡ returned_ok))
    ⊎ ((eof ≡ closed) × (connected.is_subscribed ≡ true) × (returned_ok ≡ returned_ok))
step-stop_example = step-stop parse find_id answers connected connected eof returned_ok ended
