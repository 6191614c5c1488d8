-- ===== src/App/Session.antt =====
-- The events that reach the state of the Wayland thread over a session.
use uclip_daemon.Base.{ℕ, ◌+◌, ◌≡◌, refl, List, [], ◌∷◌}
use uclip_daemon.History.Content.{BlobOrder}
use uclip_daemon.App.{AppState, Proxy, restore_entry}
use uclip_daemon.App.Dispatch.{WaylandEvent, dispatch_event}
use uclip_daemon.App.{new, set_device}
use uclip_daemon.Base.Eq.{nat_eq}
use uclip_daemon.History.State
use uclip_daemon.History.State.{SystemTime}
use uclip_daemon.Io.{drain_pending_reads}
use uclip_daemon.Io.Keeps.{drain_pending_reads-Keeps}
use uclip_daemon.Base.Eq.{string_eq}
use uclip_daemon.App.Ownership.{
  created, destroyed_count, owned, IsOwned, IsOwned-same, restore_entry-IsOwned,
}
use uclip_daemon.App.Handlers.{dispatch_event-IsOwned}

-- What reaches the state: an event of the compositor, or a step of the loop of the Wayland thread.
pub data AppEvent : Type 0 where
  wayland_event : WaylandEvent → AppEvent
  device_made : Proxy → AppEvent
  reads_drained : (ℕ → SystemTime) → AppEvent
  echo_removed : ℕ → AppEvent
  restore_asked : Proxy → ℕ → AppEvent

unfoldable pub on_event : BlobOrder → AppState → AppEvent → AppState
on_event it s (wayland_event e) = dispatch_event it s e
on_event it s (device_made device) = set_device s device
on_event it s (reads_drained now) = (drain_pending_reads it now s).0
on_event it s (echo_removed id) = record s { clipboard = (State.remove s.clipboard id).0 }
on_event it s (restore_asked source id) = (restore_entry it s source id).0

unfoldable pub on_events : BlobOrder → AppState → List AppEvent → AppState
on_events it s [] = s
on_events it s (e ∷ es) = on_events it (on_event it s e) es

on_event-IsOwned :
    (it : BlobOrder) (s : AppState) (e : AppEvent) → IsOwned s → IsOwned (on_event it s e)
unfolding on_event set_device
on_event-IsOwned it s (wayland_event e) h = dispatch_event-IsOwned it s e h
on_event-IsOwned it s (device_made device) h = IsOwned-same s _ refl refl h
on_event-IsOwned it s (reads_drained now) h =
    let (made, same, _) = drain_pending_reads-Keeps it now s in IsOwned-same s _ made same h
on_event-IsOwned it s (echo_removed id) h = IsOwned-same s _ refl refl h
on_event-IsOwned it s (restore_asked source id) h = restore_entry-IsOwned it s source id h

-- No sequence of events leaks a source, or destroys one twice.
pub on_events-IsOwned :
    (it : BlobOrder) (s : AppState) (es : List AppEvent) → IsOwned s → IsOwned (on_events it s es)
unfolding on_events
on_events-IsOwned it s [] h = h
on_events-IsOwned it s (e ∷ es) h =
    on_events-IsOwned it (on_event it s e) es (on_event-IsOwned it s e h)

pub new-IsOwned : IsOwned new
unfolding created destroyed_count
new-IsOwned = record { balance = λ p. refl }

-- From the start of the program and after any events, a source was created as often as it was
-- destroyed, and once more exactly if it is the current source.
pub no_source_leaks :
    (it : BlobOrder) (es : List AppEvent) (p : Proxy)
    → let s = on_events it new es in
      created p s.requests ≡ destroyed_count p s.requests + owned p s.current_source
no_source_leaks it es p = (on_events-IsOwned it new es new-IsOwned).balance p
