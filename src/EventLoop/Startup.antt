-- ===== src/EventLoop/Startup.antt =====
-- src/main.rs: `setup_connection`, and `main` up to the loop.
use uclip_daemon.Base.{ℕ, List, [], Option, none, some}
use uclip_daemon.Base.Result.{Result, done, fail, ◌>>=◌, ◌>>◌}
use uclip_daemon.Text.{Chars}
use uclip_daemon.Error.{ClipboardError, no_seat, no_manager}
use uclip_daemon.History.Content.{BlobOrder}
use uclip_daemon.App.{AppState, new, Proxy, request, get_data_device, set_device}
use uclip_daemon.App.Dispatch.{WaylandEvent, dispatch_all}
use uclip_daemon.Daemon.Server.{socket_path}
use uclip_daemon.Daemon.Server.Bind.{IoError, Answer, bind}
use uclip_daemon.EventLoop.{LoopState}
use uclip_daemon.EventLoop.Run.{Round, LoopEnd, run_event_loop}

pub data StartError : Type 0 where
  connect_failed : Chars → StartError
  roundtrip_failed : Chars → StartError
  refused : ClipboardError → StartError
  runtime_failed : Chars → StartError
  bind_failed : IoError → StartError

-- The events that a roundtrip dispatches, and whether it fails after them.
pub record Roundtrip : Type 0 where
  pub events : List WaylandEvent
  pub fails : Option Chars

-- What the compositor gives to a connection; `device` is the proxy of the new data device.
pub record Connection : Type 0 where
  pub order : BlobOrder
  pub connect_fails : Option Chars
  pub first : Roundtrip
  pub second : Roundtrip
  pub device : Proxy

unfoldable pub connect : Option Chars → Result StartError AppState
connect none = done new
connect (some e) = fail (connect_failed e)

unfoldable pub after_events : AppState → Option Chars → Result StartError AppState
after_events s none = done s
after_events s (some e) = fail (roundtrip_failed e)

unfoldable pub roundtrip : BlobOrder → Roundtrip → AppState → Result StartError AppState
roundtrip it r s = after_events (dispatch_all it s r.events) r.fails

-- The checks after the roundtrips.
unfoldable pub setup_device : AppState → Proxy → Result StartError AppState
setup_device s device = elim s.seat [
  | none ↦ fail (refused no_seat)
  | some seat ↦ elim s.manager [
    | none ↦ fail (refused no_manager)
    | some manager ↦ done (set_device (request s (get_data_device manager seat)) device)
  ]
]

unfoldable pub setup_connection : Connection → Result StartError AppState
setup_connection c = do
  let s = (← connect c.connect_fails)
  let s' = (← roundtrip c.order c.first s)
  let s'' = (← roundtrip c.order c.second s')
  setup_device s'' c.device

-- What the system gives to the program.
pub record World : Type 0 where
  pub runtime_fails : Option Chars
  pub runtime_dir : Option Chars
  pub uid : ℕ
  pub files : Answer
  pub connection : Connection
  pub rounds : List Round

abbrev pub start_runtime : Option Chars → Result StartError (Unit {0})
start_runtime none = done tt
start_runtime (some e) = fail (runtime_failed e)

abbrev pub bound : Result IoError Chars → Result StartError Chars
bound (done path) = done path
bound (fail e) = fail (bind_failed e)

-- The state before the first round.
abbrev pub first_loop : AppState → LoopState
first_loop s = record { app = s; snapshot = []; broadcast = []; expect_echo = none; replies = [] }

-- The socket is bound before the compositor is asked.
unfoldable pub start : World → Result StartError LoopState
start w = do
  start_runtime w.runtime_fails
  let path = (← bound (bind (socket_path w.runtime_dir w.uid) w.files []).1)
  let s = (← setup_connection w.connection)
  done (first_loop s)

unfoldable pub main : World → Result StartError LoopEnd
main w = do let l = (← start w); done (run_event_loop w.rounds l)
