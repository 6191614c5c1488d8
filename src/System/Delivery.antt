-- ===== src/System/Delivery.antt =====
-- src/main.rs and src/daemon/server.rs: what the connections are sent of the events that the
-- Wayland thread broadcasts.
pub mod Turns
pub mod Runs
pub mod Mirror
use uclip_daemon.Base.{
  ℕ, zero, suc, ◌+◌, ◌≤◌, ◌<◌, ◌≡◌, ◌≢◌, refl, sym, ap, subst, ◌∙◌, ◌⊎◌, inl, inr, String, List, [],
  ◌∷◌, ◌++◌, append-nil, append_assoc, length, length-append, Bool, true, false, Option, none, some,
  arith, Bool-cases,
}
use uclip_daemon.Base.Order.{codes}
use uclip_daemon.Text.{Chars}
use uclip_daemon.Daemon.Types.{ServerEvent, error, ResponseEnvelope}
use uclip_daemon.Daemon.Broadcast.{Received, value, lag, capacity, Broadcast}
use uclip_daemon.Daemon.Server.{
  Answers, Input, eof, line, read_failed, Client, Next, continue, stop, Frame, response,
  event_frame, Parsed, step, RestoreAnswer, channel_closed,
}
use uclip_daemon.Daemon.Server.Serve.{get_elem?}
use uclip_daemon.Daemon.Server.Isolation.{get_elem?-append, get_elem?-last}
use uclip_daemon.Daemon.Server.Subscription.{client_of}
use uclip_daemon.Daemon.Server.Transcript.{
  goes_on, when, framed, HasDone, owed, survives, step-Follows,
}
use uclip_daemon.System.{
  Task, System, spawned_task, answers, input_of, Turn, read, refused, resolved, receive, Step,
  thread, accept, turn, ask, Steps, here, next,
}
use uclip_daemon.System.Frame.{ThreadStep-IsFollowed, tasks-ThreadStep, replaced}

abbrev pub lag_notice : Frame
lag_notice = response (record { v = 1; id = ""; resp = error (codes "lagged, re-list") })

-- The frames deliver the events in their order, but for gaps; each gap is announced.
pub data Delivers : List ServerEvent → List Frame → Type 0 where
  nothing : Delivers [] []
  event_sent :
      {es : List ServerEvent} {fs : List Frame} (e : ServerEvent)
      → Delivers es fs
      → Delivers (es ++ e ∷ []) (fs ++ event_frame (record { v = 1; event = e }) ∷ [])
  gap :
      {es : List ServerEvent} {fs : List Frame} (skipped : List ServerEvent)
      → 0 < length skipped
      → Delivers es fs
      → Delivers (es ++ skipped) (fs ++ lag_notice ∷ [])
  replied_to :
      {es : List ServerEvent} {fs : List Frame} (r : ResponseEnvelope)
      → Delivers es fs
      → Delivers es (fs ++ response r ∷ [])

-- Of what was broadcast since `before`, the connection was sent what is behind its receiver; if
-- the connection has ended, a part of that.
pub record IsDelivered (b : Broadcast) (before now : List ServerEvent) (t : Task b) : Type 0 where
  pub events : List ServerEvent
  pub rest : List ServerEvent
  pub split : now ≡ before ++ (events ++ rest)
  pub delivers : Delivers events (client_of t.state).sent
  pub position : goes_on t.state ≡ true → b.seen t.receiver ≡ length before + length events

-- The value at the length of a prefix is the first one after it.
pub split_at :
    (xs ys : List ServerEvent) (e : ServerEvent)
    → get_elem? (xs ++ ys) (length xs) ≡ some e
    → (zs : List ServerEvent) × (ys ≡ e ∷ zs)
unfolding get_elem?
split_at [] [] e h = absurd (cc)
split_at [] (y ∷ ys) e h = (ys, cc)
split_at (x ∷ xs) ys e h = split_at xs ys e h

pub split_after :
    (n : ℕ) (ys : List ServerEvent)
    → n ≤ length ys
    → (zs ws : List ServerEvent) × (ys ≡ zs ++ ws) × (length zs ≡ n)
split_after zero ys h = ([], ys, refl, refl)
split_after (suc n) [] h = absurd (omega arith)
split_after (suc n) (y ∷ ys) h =
    let (zs, ws, e, k) = split_after n ys (omega arith) in (y ∷ zs, ws, ap (◌∷◌ y) e, ap suc k)

module _ (b : Broadcast) (before : List ServerEvent) where
  -- More is broadcast.
  pub grow :
      {now now' : List ServerEvent} {t : Task b} (more : List ServerEvent)
      → now' ≡ now ++ more
      → IsDelivered b before now t
      → IsDelivered b before now' t
  grow more e d = record {
    events = d.events;
    rest = d.rest ++ more;
    split =
        e
        ∙ ap (λ (xs : List ServerEvent). xs ++ more) d.split
        ∙ append_assoc before (d.events ++ d.rest) more
        ∙ ap (λ (xs : List ServerEvent). before ++ xs) (append_assoc d.events d.rest more);
    delivers = d.delivers;
    position = d.position;
  }

  -- A task that was just spawned.
  pub fresh-IsDelivered :
      (s : System b) → before ≡ s.loop.broadcast → IsDelivered b before before (spawned_task b s)
  fresh-IsDelivered s e = record {
    events = [];
    rest = [];
    split = sym (append-nil before);
    delivers = nothing;
    position = λ _. omega (arith, b.seen-subscribe s.loop.broadcast, ap length e);
  }
