-- ===== src/System.antt =====
-- src/main.rs: the program as it runs, the Wayland thread and the tasks of the connections, which
-- share the snapshot, the channel of the restore requests and the broadcast channel.
-- One step is one access of the thread to what is shared, or one round of a connection's task.
pub mod Frame
pub mod Delivery
pub mod Serving
pub mod Restores
pub mod Listed
use uclip_daemon.Base.{
  ℕ, ◌+◌, ◌<◌, ◌≡◌, ◌⊎◌, length, String, List, [], ◌∷◌, ◌++◌, Bool, true, false, Option, none, some,
  ltb, eqb, if◌then◌else◌,
}
use uclip_daemon.Base.Result.{done, fail}
use uclip_daemon.Text.{Chars}
use uclip_daemon.History.Content.{BlobOrder}
use uclip_daemon.History.State.{SystemTime}
use uclip_daemon.App.{AppState, Proxy, new}
use uclip_daemon.App.Dispatch.{WaylandEvent, dispatch_all}
use uclip_daemon.Io.{ReadOutcome, drain_pending_reads}
use uclip_daemon.Daemon.Types.{UiRequest, restore, DaemonResponse, EntrySummary, max_line_bytes}
use uclip_daemon.Daemon.Broadcast.{Received, value, lag, Broadcast}
use uclip_daemon.Daemon.Server.{
  RestoreAnswer, channel_closed, replied, reply_dropped, timed_out, Answers, Input, eof, line,
  read_failed, event, lagged, Client, connected, Next, continue, Parsed, request, invalid,
  line_bytes, step,
}
use uclip_daemon.Daemon.Server.Serve.{update, get_elem?}
use uclip_daemon.EventLoop.{
  LoopState, PendingRestore, on_outcome, published, send_entry, handle_restore,
}
use uclip_daemon.EventLoop.Run.{
  PollAnswer, LoopError, dispatch_error, LoopEnd, running, ended, flush_and_wait,
}
use uclip_daemon.EventLoop.Startup.{StartError, Connection, setup_connection, first_loop}

-- Where the Wayland thread stands: in `setup_connection`, or in the loop before a dispatch, with
-- the outcomes that are left, before the send of a row that it has listed, at the restore requests,
-- or in the flush and the wait; or it has returned.
pub data Phase : Type 0 where
  connecting : Phase
  dispatching : Phase
  storing : List ReadOutcome → Phase
  announcing : EntrySummary → List ReadOutcome → Phase
  serving polling : Phase
  not_started : StartError → Phase
  stopped : LoopError → Phase

unfoldable pub is_over : Phase → Bool
is_over (not_started e) = true
is_over (stopped e) = true
is_over _ = false

unfoldable pub after_wait : LoopEnd → Phase
after_wait (running l) = dispatching
after_wait (ended l e) = stopped e

-- The thread owns the receiver of the requests, so returning discards those that wait.
unfoldable pub kept_requests : LoopEnd → List PendingRestore → List PendingRestore
kept_requests (running l) requests = requests
kept_requests (ended l e) requests = []

-- `mpsc::channel::<PendingRestore>(32)`
abbrev pub max_requests : ℕ
max_requests = 32

-- The answer that was sent through the one-shot channel `n`.
unfoldable pub reply_of : ℕ → List (ℕ × DaemonResponse) → Option DaemonResponse
reply_of n [] = none
reply_of n ((m, r) ∷ replies) = let rest = reply_of n replies in if eqb m n then some r else rest

abbrev pub input_of : Received → Input
input_of (value e) = event e
input_of (lag n) = lagged n

module _ (b : Broadcast) where
  -- A connection's task; `awaits` is the line of a restore and its one-shot channel, while the task
  -- waits for the answer.
  pub record Task : Type 0 where
    pub state : Next
    pub receiver : b.Receiver
    pub awaits : Option (Chars × ℕ)

  -- `loop` holds the state of the thread, with the snapshot, the events broadcast and the answers
  -- given; `channels` counts the one-shot channels made.
  pub record System : Type 0 where
    pub loop : LoopState
    pub phase : Phase
    pub requests : List PendingRestore
    pub channels : ℕ
    pub tasks : List Task

  abbrev pub boot : System
  boot = record {
    loop = first_loop new;
    phase = connecting;
    requests = [];
    channels = 0;
    tasks = [];
  }

  abbrev pub spawned_task : System → Task
  spawned_task s = record {
    state = continue connected;
    receiver = b.subscribe s.loop.broadcast;
    awaits = none;
  }

  abbrev pub accepted : System → System
  accepted s = record s { tasks = s.tasks ++ spawned_task s ∷ [] }

  -- What the rest of the program answers to a task; the snapshot is not `readable` if its lock is
  -- poisoned.
  abbrev pub answers : System → RestoreAnswer → Bool → Bool → Answers
  answers s answer readable writes = record {
    snapshot = if readable then some s.loop.snapshot else none;
    restores = λ _. answer;
    writes = writes;
  }

  -- The answer that a task gets that waits for channel `n`. `timeout` looks at the channel before
  -- its deadline, and the sender of a discarded request is dropped.
  pub data Resolves (s : System) (n : ℕ) : RestoreAnswer → Type 0 where
    by_reply : {r : DaemonResponse} → reply_of n s.loop.replies ≡ some r → Resolves s n (replied r)
    by_drop : is_over s.phase ≡ true → reply_of n s.loop.replies ≡ none → Resolves s n reply_dropped
    by_timeout : is_over s.phase ≡ false → reply_of n s.loop.replies ≡ none → Resolves s n timed_out

-- The steps of the Wayland thread.
module _ (b : Broadcast) where
  abbrev pub drained_system : System b → AppState × List ReadOutcome → System b
  drained_system s (app, outcomes) = record s {
    loop = record s.loop { app = app };
    phase = storing outcomes;
  }

  pub data ThreadStep (s : System b) : System b → Type 0 where
    connect :
        {app : AppState} (c : Connection)
        → s.phase ≡ connecting
        → setup_connection c ≡ done app
        → ThreadStep s (record s { loop = record s.loop { app = app }; phase = dispatching })
    connect_failed :
        {e : StartError} (c : Connection)
        → s.phase ≡ connecting
        → setup_connection c ≡ fail e
        → ThreadStep s (record s { phase = not_started e; requests = [] })
    -- `dispatch_pending` and `drain_pending_reads`, which read and write nothing that is shared.
    dispatch :
        (it : BlobOrder) (at : ℕ → SystemTime) (events : List WaylandEvent)
        → s.phase ≡ dispatching
        → ThreadStep s
            (drained_system s (drain_pending_reads it at (dispatch_all it s.loop.app events)))
    dispatch_failed :
        (it : BlobOrder) (events : List WaylandEvent) (e : Chars)
        → s.phase ≡ dispatching
        → ThreadStep s (record s {
          loop = record s.loop { app = dispatch_all it s.loop.app events };
          phase = stopped (dispatch_error e);
          requests = [];
        })
    store :
        {o : ReadOutcome} {outcomes : List ReadOutcome} (checked now : ℕ)
        → s.phase ≡ storing (o ∷ outcomes)
        → published checked now s.loop o ≡ none
        → ThreadStep s
            (record s { loop = on_outcome checked now s.loop o; phase = storing outcomes })
    -- Up to the release of the snapshot's lock: the event is not sent yet.
    store_row :
        {o : ReadOutcome} {outcomes : List ReadOutcome} {e : EntrySummary} (checked now : ℕ)
        → s.phase ≡ storing (o ∷ outcomes)
        → published checked now s.loop o ≡ some e
        → ThreadStep s (record s {
          loop = record (on_outcome checked now s.loop o) { broadcast = s.loop.broadcast };
          phase = announcing e outcomes;
        })
    announce :
        {e : EntrySummary} {outcomes : List ReadOutcome}
        → s.phase ≡ announcing e outcomes
        → ThreadStep s (record s { loop = send_entry s.loop e; phase = storing outcomes })
    stored_all : s.phase ≡ storing [] → ThreadStep s (record s { phase = serving })
    serve_request :
        {p : PendingRestore} {requests : List PendingRestore} (it : BlobOrder) (now : ℕ)
        (source : Proxy)
        → s.phase ≡ serving
        → s.requests ≡ p ∷ requests
        → ThreadStep s
            (record s { loop = handle_restore it now source s.loop p; requests = requests })
    -- `try_recv` found nothing.
    all_served : s.phase ≡ serving → s.requests ≡ [] → ThreadStep s (record s { phase = polling })
    flush_wait :
        (flush_fails : Option Chars) (polled : PollAnswer)
        → s.phase ≡ polling
        → ThreadStep s (record s {
          phase = after_wait (flush_and_wait flush_fails polled s.loop);
          requests = kept_requests (flush_and_wait flush_fails polled s.loop) s.requests;
        })

abbrev pub restore_id : UiRequest → Option ℕ
restore_id (restore entry_id) = some entry_id
restore_id _ = none

abbrev pub parsed_restore : Parsed → Option ℕ
parsed_restore (request r) = restore_id r.req
parsed_restore (invalid e) = none

-- The entry that an input asks to restore.
unfoldable pub asks_restore : (Chars → Parsed) → Input → Option ℕ
asks_restore parse (line l) =
    if ltb max_line_bytes (line_bytes l) then none else parsed_restore (parse l)
asks_restore parse _ = none

-- The steps of the server and of its tasks.
module _ (b : Broadcast) (parse : Chars → Parsed) (find_id : Chars → Option String) where
  -- A round of a task whose connection goes on, with client `c`; `readable` and `writes` say
  -- whether the snapshot can be read, and whether what is sent can be written.
  pub data Turn (s : System b) (t : Task b) (readable writes : Bool) : Task b → Type 0 where
    read :
        {c : Client} (i : Input)
        → t.state ≡ continue c
        → t.awaits ≡ none
        → (i ≡ eof) ⊎ ((e : Chars) × (i ≡ read_failed e)) ⊎ ((l : Chars) × (i ≡ line l))
        → asks_restore parse i ≡ none
        → Turn s t readable writes (record t {
          state = step parse find_id (answers b s channel_closed readable writes) c i;
        })
    -- The thread has returned, and the channel to it is closed.
    refused :
        {c : Client} {id : ℕ} (l : Chars)
        → t.state ≡ continue c
        → t.awaits ≡ none
        → asks_restore parse (line l) ≡ some id
        → is_over s.phase ≡ true
        → Turn s t readable writes (record t {
          state = step parse find_id (answers b s channel_closed readable writes) c (line l);
        })
    resolved :
        {c : Client} {n : ℕ} {answer : RestoreAnswer} (l : Chars)
        → t.state ≡ continue c
        → t.awaits ≡ some (l, n)
        → Resolves b s n answer
        → Turn s t readable writes (record t {
          state = step parse find_id (answers b s answer readable writes) c (line l);
          awaits = none;
        })
    receive :
        {c : Client} {v : Received} {r : b.Receiver}
        → t.state ≡ continue c
        → t.awaits ≡ none
        → c.is_subscribed ≡ true
        → b.recv s.loop.broadcast t.receiver ≡ some (v, r)
        → Turn s t readable writes (record t {
          state = step parse find_id (answers b s channel_closed readable writes) c (input_of v);
          receiver = r;
        })

  pub data Step (s : System b) : System b → Type 0 where
    thread : {u : System b} → ThreadStep b s u → Step s u
    accept : Step s (accepted b s)
    turn :
        {t t' : Task b} {readable writes : Bool} (k : ℕ)
        → get_elem? s.tasks k ≡ some t
        → Turn s t readable writes t'
        → Step s (record s { tasks = update k (λ _. t') s.tasks })
    -- `req_tx.send` waits for room in the channel.
    ask :
        {t : Task b} {c : Client} {id : ℕ} (k : ℕ) (l : Chars)
        → get_elem? s.tasks k ≡ some t
        → t.state ≡ continue c
        → t.awaits ≡ none
        → asks_restore parse (line l) ≡ some id
        → is_over s.phase ≡ false
        → length s.requests < max_requests
        → Step s (record s {
          requests = s.requests ++ record { entry_id = id; reply = s.channels } ∷ [];
          channels = s.channels + 1;
          tasks = update k (λ _. record t { awaits = some (l, s.channels) }) s.tasks;
        })

  pub data Steps (s : System b) : System b → Type 0 where
    here : Steps s s
    next : {t u : System b} → Steps s t → Step t u → Steps s u
