-- ===== src/Tests/Runs.antt =====
-- The theorems on whole runs of the program and of its server, at concrete ones.
use uclip_daemon.Base.{ℕ, ◌≡◌, refl, String, List, [], ◌∷◌, true, false, Option, none, some, arith}
use uclip_daemon.Base.Result.{done}
use uclip_daemon.Base.Eq.{string_eq, nat_eq}
use uclip_daemon.Text.{Chars, decimal}
use uclip_daemon.App.{
  AppState, delivers, new, Proxy, bind_seat, bind_manager, get_data_device, set_seat, set_manager,
  set_device,
}
use uclip_daemon.App.Dispatch.{
  registry_event, offer_event, device_event, global, data_offer, selection, piped,
  dispatch_registry, dispatch_event, dispatch_all,
}
use uclip_daemon.Daemon.Server.{
  socket_path, Answers, Input, eof, line, lagged, connected, Parsed, request as request_line,
  timed_out, handle_client,
}
use uclip_daemon.Daemon.Types.{subscribe}
use uclip_daemon.Daemon.Server.Bind.{
  IoError, not_found, other, SysCall, remove_file, bind_socket, bind, call, unlink, attempt,
  make_parent, rest_of, or_fail, tolerate, parent, drop_name, trim_end,
}
use uclip_daemon.Daemon.Server.Stale.{plan, carry_out, bind_lem}
use uclip_daemon.Daemon.Server.Subscription.{client_of}
use uclip_daemon.Daemon.Server.Transcript.{transcript, sent-handle_client}
use uclip_daemon.Daemon.Server.Serve.{
  Happening, accepted, accept_failed, progressed, serve, get_elem?,
}
use uclip_daemon.Daemon.Server.Isolation.{spawned, after_accepts, serve-alone}
use uclip_daemon.EventLoop.Run.{Round, interrupted, poll_failed, run_event_loop, end_state}
use uclip_daemon.EventLoop.Startup.{
  Connection, World, connect, after_events, roundtrip, setup_device, setup_connection, first_loop,
  start, main,
}
use uclip_daemon.EventLoop.Setup.{IsDecided, setup_error, setup_connection_lem}
use uclip_daemon.EventLoop.Ends.{ends_with, first_failure, run_event_loop_end}
use uclip_daemon.EventLoop.Answers.{AreAnswers, unasked, asked, run_event_loop-answers}
use uclip_daemon.EventLoop.Frames.{IsFollowed}
use uclip_daemon.EventLoop.Replay.{run_event_loop-IsFollowed}
use uclip_daemon.EventLoop.Lifetime.{IsSound, main-IsSound}
use uclip_daemon.Tests.{in_order, noon}

abbrev pub proxy : ℕ → Proxy
proxy n = record { protocol_id = n; serial = n }

-- The compositor announces both globals.
abbrev pub connection : Connection
connection = record {
  order = in_order;
  connect_fails = none;
  first = record {
    events =
        registry_event (proxy 1) (global 1 "wl_seat" 9)
        ∷ registry_event (proxy 2) (global 2 "ext_data_control_manager_v1" 1)
        ∷ [];
    fails = none;
  };
  second = record { events = []; fails = none };
  device = proxy 3;
}

-- "hi" is copied, its entry and one that is not there are asked for, and the wait is interrupted.
abbrev pub copied : Round
copied = record {
  events =
      device_event (λ m. piped (delivers [])) (data_offer (proxy 4))
      ∷ offer_event (proxy 4) "text/plain"
      ∷ device_event (λ m. piped (delivers (104 ∷ 105 ∷ []))) (selection (some (proxy 4)))
      ∷ [];
  dispatch_fails = none;
  order = in_order;
  stored_at = λ o. noon;
  clock = λ n. (0, 0);
  pending = record { entry_id = 1; reply = 7 } ∷ record { entry_id = 9; reply = 8 } ∷ [];
  restore_env = λ n. (0, proxy 9);
  flush_fails = none;
  polled = interrupted;
}

abbrev last_round : Round
last_round = record copied { events = []; pending = []; polled = poll_failed (98 ∷ []) }

abbrev world : World
world = record {
  runtime_fails = none;
  runtime_dir = none;
  uid = 7;
  files = λ c. none;
  connection = connection;
  rounds = copied ∷ last_round ∷ [];
}

abbrev pub connected_state : AppState
connected_state = record new {
  seat = some (proxy 1);
  manager = some (proxy 2);
  device = some (proxy 3);
  requests = bind_seat 1 9 ∷ bind_manager 2 1 ∷ get_data_device (proxy 2) (proxy 1) ∷ [];
}

pub connection_made : setup_connection connection ≡ done connected_state
unfolding setup_connection connect roundtrip after_events setup_device dispatch_all dispatch_event
    dispatch_registry set_seat set_manager set_device
connection_made = refl

started : main world ≡ done (run_event_loop world.rounds (first_loop connected_state))
unfolding main start setup_connection connect roundtrip after_events setup_device dispatch_all
    dispatch_event dispatch_registry set_seat set_manager set_device bind make_parent rest_of call
    unlink attempt or_fail tolerate parent drop_name trim_end socket_path decimal
started = refl

main-IsSound_example :
    IsSound world (end_state (run_event_loop world.rounds (first_loop connected_state)))
main-IsSound_example =
    main-IsSound world (run_event_loop world.rounds (first_loop connected_state)) (omega arith)
      started

run_event_loop-answers_example :
    AreAnswers
      (asked world.rounds)
      (end_state (run_event_loop world.rounds (first_loop connected_state))).replies
run_event_loop-answers_example =
    run_event_loop-answers world.rounds (first_loop connected_state) [] refl unasked

run_event_loop_end_example :
    ends_with (run_event_loop world.rounds (first_loop connected_state))
    ≡ first_failure world.rounds
run_event_loop_end_example = run_event_loop_end world.rounds (first_loop connected_state)

setup_connection_lem_example :
    IsDecided connection (setup_connection connection) (setup_error connection)
setup_connection_lem_example = setup_connection_lem connection

-- The directory "/r" is there, the socket in it is stale, and the address is in use.
abbrev busy : SysCall → Option IoError
busy (remove_file p) = some not_found
busy (bind_socket p) = some (other (117 ∷ []))
busy c = none

abbrev socket : Chars
socket = b'/' ∷ b'r' ∷ b'/' ∷ b's' ∷ []

bind_lem_example : bind socket busy [] ≡ carry_out busy (plan socket) socket
bind_lem_example = bind_lem socket busy

-- Every line asks to subscribe.
abbrev parse : Chars → Parsed
parse l = request_line (record { v = 1; id = "s"; req = subscribe })

abbrev find_id : Chars → Option String
find_id l = none

abbrev served : Answers
served = record { snapshot = none; restores = λ n. timed_out; writes = true }

abbrev hung_up : Answers
hung_up = record served { writes = false }

-- A lag before the subscription, a line, a lag after it, and a write that fails.
abbrev inputs : List (Answers × Input)
inputs =
    (served, lagged 3)
    ∷ (served, line [])
    ∷ (served, lagged 2)
    ∷ (hung_up, lagged 1)
    ∷ (served, line [])
    ∷ []

sent-handle_client_example :
    (client_of (handle_client parse find_id connected inputs)).sent
    ≡ transcript parse find_id false inputs
sent-handle_client_example = sent-handle_client parse find_id inputs connected

-- Two connections, and an accept that fails between them.
abbrev happenings : List Happening
happenings =
    accepted
    ∷ progressed 0 (served, line [])
    ∷ accept_failed []
    ∷ accepted
    ∷ progressed 1 (served, eof)
    ∷ progressed 0 (served, lagged 2)
    ∷ []

serve-alone_example :
    get_elem? (serve parse find_id [] happenings) 1
    ≡ spawned parse find_id 1 (after_accepts 1 happenings)
serve-alone_example = serve-alone parse find_id happenings 1

run_event_loop-IsFollowed_example :
    IsFollowed
      (first_loop connected_state)
      (end_state (run_event_loop world.rounds (first_loop connected_state)))
run_event_loop-IsFollowed_example =
    run_event_loop-IsFollowed world.rounds (first_loop connected_state)
