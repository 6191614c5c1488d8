-- ===== src/System/Delivery/Runs.antt =====
-- src/main.rs: what a connection is sent while the program runs.
use uclip_daemon.Base.{refl, length, ℕ, ◌≡◌, ap, subst, ◌∙◌, inl, inr, String, List, Option, some}
use uclip_daemon.Text.{Chars}
use uclip_daemon.Daemon.Types.{ServerEvent}
use uclip_daemon.Daemon.Broadcast.{Broadcast}
use uclip_daemon.Daemon.Server.{Parsed}
use uclip_daemon.Daemon.Server.Serve.{get_elem?}
use uclip_daemon.Daemon.Server.Isolation.{get_elem?-last, get_elem?-append}
use uclip_daemon.System.{
  accepted, spawned_task, Task, System, Step, thread, accept, turn, ask, Steps, here, next,
}
use uclip_daemon.System.Frame.{broadcast-ThreadStep, tasks-ThreadStep, replaced}
use uclip_daemon.System.Delivery.{fresh-IsDelivered, IsDelivered, grow}
use uclip_daemon.System.Delivery.Turns.{Turn-IsDelivered}

-- Task `k` is there, and was sent what is behind its receiver.
record Receives (b : Broadcast) (before : List ServerEvent) (k : ℕ) (s : System b) : Type 0 where
  task : Task b
  is_there : get_elem? s.tasks k ≡ some task
  delivered : IsDelivered b before s.loop.broadcast task

module _ (b : Broadcast) (before : List ServerEvent) (parse : Chars → Parsed)
    (find_id : Chars → Option String) (k : ℕ) where
  Step-Receives :
      {s u : System b} → Step b parse find_id s u → Receives b before k s → Receives b before k u
  Step-Receives {s} (thread {u} st) h =
      let (more, grown) = broadcast-ThreadStep st in
      record {
        task = h.task;
        is_there = ap (λ (ts : List (Task b)). get_elem? ts k) (tasks-ThreadStep st) ∙ h.is_there;
        delivered = grow b before more grown h.delivered;
      }
  Step-Receives {s} accept h = record {
    task = h.task;
    is_there = get_elem?-append s.tasks _ k h.task h.is_there;
    delivered = h.delivered;
  }
  Step-Receives {s} (turn {t} {t'} j found tn) h =
      elim (replaced s.tasks j k {t' = t'} found h.is_there) [
        | inl (same, now) ↦ record {
          task = t';
          is_there = now;
          delivered =
              Turn-IsDelivered b before parse find_id tn
                (subst (IsDelivered b before s.loop.broadcast) same h.delivered);
        }
        | inr now ↦ record { task = h.task; is_there = now; delivered = h.delivered }
      ]
  Step-Receives {s} (ask {t} {c} {id} j l found e _ _ _ _) h =
      elim (replaced s.tasks j k {t' = record t { awaits = some (l, s.channels) }} found
        h.is_there) [
          | inl (same, now) ↦
              let d = subst (IsDelivered b before s.loop.broadcast) same h.delivered in
              record {
                task = _;
                is_there = now;
                delivered = record {
                  events = d.events;
                  rest = d.rest;
                  split = d.split;
                  delivers = d.delivers;
                  position = d.position;
                };
              }
          | inr now ↦ record { task = h.task; is_there = now; delivered = h.delivered }
        ]

  Steps-Receives :
      {s u : System b} → Steps b parse find_id s u → Receives b before k s → Receives b before k u
  Steps-Receives here h = h
  Steps-Receives (next r st) h = Step-Receives st (Steps-Receives r h)

-- A connection that is accepted at any time, whatever the rest of the program and the other
-- connections do from then on, is sent the events that are broadcast after it was accepted, in
-- their order, each once: those behind its receiver, up to gaps that are announced each by a
-- notice; also the events from before it subscribed. If it ends, it was sent a first part of them.
pub accepted-IsDelivered :
    (b : Broadcast) (parse : Chars → Parsed) (find_id : Chars → Option String) (s u : System b)
    → Steps b parse find_id (accepted b s) u
    → (task : Task b) × (get_elem? u.tasks (length s.tasks) ≡ some task)
      × IsDelivered b s.loop.broadcast u.loop.broadcast task
accepted-IsDelivered b parse find_id s u r =
    let h = Steps-Receives b s.loop.broadcast parse find_id (length s.tasks) r (record {
      task = spawned_task b s;
      is_there = get_elem?-last s.tasks (spawned_task b s);
      delivered = fresh-IsDelivered b s.loop.broadcast s refl;
    }) in
    (h.task, h.is_there, h.delivered)
