-- ===== src/System/Delivery/Mirror.antt =====
-- src/main.rs and src/daemon/snapshot.rs: the rows that a subscriber keeps.
use uclip_daemon.Base.{
  ◌≡◌, ◌≢◌, refl, sym, ap, ◌∙◌, String, List, [], ◌∷◌, ◌++◌, append-nil, append_assoc, length,
  length-append, Option, none, some, arith, All,
}
use uclip_daemon.Text.{Chars}
use uclip_daemon.Daemon.Types.{ServerEvent}
use uclip_daemon.Daemon.Broadcast.{Broadcast}
use uclip_daemon.Daemon.Server.{Client, Next, continue, Frame, response, event_frame, Parsed}
use uclip_daemon.Daemon.Server.Serve.{get_elem?}
use uclip_daemon.Daemon.Server.Isolation.{some_inj}
use uclip_daemon.Daemon.Server.Subscription.{client_of}
use uclip_daemon.Daemon.Server.Transcript.{goes_on}
use uclip_daemon.EventLoop.Frames.{replay}
use uclip_daemon.System.{Task, System, accepted, Steps}
use uclip_daemon.System.Frame.{unsent, Steps-IsFollowed}
use uclip_daemon.System.Delivery.{
  lag_notice, Delivers, nothing, event_sent, gap, replied_to, IsDelivered,
}
use uclip_daemon.System.Delivery.Runs.{accepted-IsDelivered}

-- The events that a client was sent.
unfoldable pub events_of : List Frame → List ServerEvent
events_of [] = []
events_of (event_frame e ∷ fs) = e.event ∷ events_of fs
events_of (response r ∷ fs) = events_of fs

events_of-append : (fs gs : List Frame) → events_of (fs ++ gs) ≡ events_of fs ++ events_of gs
unfolding events_of
events_of-append [] gs = refl
events_of-append (event_frame e ∷ fs) gs = ap (◌∷◌ e.event) (events_of-append fs gs)
events_of-append (response r ∷ fs) gs = events_of-append fs gs

abbrev pub IsNoNotice : Frame → Type 0
IsNoNotice f = f ≢ lag_notice

unnoticed-init :
    (fs : List Frame) (f : Frame) → All IsNoNotice (fs ++ f ∷ []) → All IsNoNotice fs × IsNoNotice f
unnoticed-init [] f h = (tt, h.0)
unnoticed-init (g ∷ fs) f h = let (hs, k) = unnoticed-init fs f h.1 in ((h.0, hs), k)

-- Without a notice, the frames hold all the events.
events_of-Delivers :
    {es : List ServerEvent} {fs : List Frame}
    → Delivers es fs
    → All IsNoNotice fs
    → events_of fs ≡ es
unfolding events_of
events_of-Delivers nothing h = refl
events_of-Delivers (event_sent {es} {fs} e d) h =
    events_of-append fs _
    ∙ ap (λ (xs : List ServerEvent). xs ++ e ∷ []) (events_of-Delivers d (unnoticed-init fs _ h).0)
events_of-Delivers (gap {es} {fs} skipped n d) h = absurd ((unnoticed-init fs _ h).1 refl)
events_of-Delivers (replied_to {es} {fs} r d) h =
    events_of-append fs _
    ∙ append-nil (events_of fs)
    ∙ events_of-Delivers d (unnoticed-init fs _ h).0

append_cancel : (xs : List ServerEvent) {ys zs : List ServerEvent} → xs ++ ys ≡ xs ++ zs → ys ≡ zs
append_cancel [] h = h
append_cancel (x ∷ xs) h = append_cancel xs cc

of_length-zero : (xs : List ServerEvent) → length xs ≡ 0 → xs ≡ []
of_length-zero [] h = refl
of_length-zero (x ∷ xs) h = absurd (omega (arith, h))

-- A client that has caught up, and got no notice, was sent all that was broadcast.
caught_up_events :
    (b : Broadcast) {before now : List ServerEvent} {t : Task b} {c : Client}
    → IsDelivered b before now t
    → t.state ≡ continue c
    → All IsNoNotice c.sent
    → b.recv now t.receiver ≡ none
    → now ≡ before ++ events_of c.sent
caught_up_events b {before} {now} {t} {c} d running h waits =
    let nothing_left = of_length-zero d.rest (
      omega (
        arith,
        b.recv-none now t.receiver waits,
        d.position (ap goes_on running),
        ap length d.split,
        length-append before (d.events ++ d.rest),
        length-append d.events d.rest,
      )) in
    let sent : (client_of t.state).sent ≡ c.sent = ap (λ (n : Next). (client_of n).sent) running in
    let all_sent : events_of c.sent ≡ d.events =
      ap events_of (sym sent) ∙ events_of-Delivers d.delivers (rw sent h) in
    d.split
    ∙ ap (λ (xs : List ServerEvent). before ++ (d.events ++ xs)) nothing_left
    ∙ ap (λ (xs : List ServerEvent). before ++ xs) (append-nil d.events ∙ sym all_sent)

-- Of a client that waits and got no notice that it lagged: the events that it was sent, and then
-- the one that the thread is about to send, if it has listed a row that it has not sent, are the
-- events that change the snapshot since the client was accepted, with one more before them if the
-- client was accepted just between the listing of a row and its send. Pushing the rows of these
-- events, but for that one, which the snapshot already had, onto the snapshot at that time gives
-- the snapshot now; whatever the thread and the other connections do.
pub accepted_mirrors :
    (b : Broadcast) (parse : Chars → Parsed) (find_id : Chars → Option String) (s u : System b)
    (task : Task b) (c : Client)
    → Steps b parse find_id (accepted b s) u
    → get_elem? u.tasks (length s.tasks) ≡ some task
    → task.state ≡ continue c
    → All IsNoNotice c.sent
    → b.recv u.loop.broadcast task.receiver ≡ none
    → (changes : List ServerEvent) × (events_of c.sent ++ unsent u.phase
        ≡ unsent s.phase ++ changes)
      × (replay s.loop.snapshot changes ≡ u.loop.snapshot)
accepted_mirrors b parse find_id s u task c r found running h waits =
    let (t, there, d) = accepted-IsDelivered b parse find_id s u r in
    let same : t ≡ task = some_inj (sym there ∙ found) in
    let f = Steps-IsFollowed r in
    let before = s.loop.broadcast in
    let sent : u.loop.broadcast ≡ before ++ events_of c.sent =
      caught_up_events b {t = t} d (ap (λ (x : Task b). x.state) same ∙ running) h
        (ap (λ (x : Task b). b.recv u.loop.broadcast x.receiver) same ∙ waits) in
    (
      f.events,
      append_cancel before (
          sym (append_assoc before (events_of c.sent) (unsent u.phase))
          ∙ ap (λ (xs : List ServerEvent). xs ++ unsent u.phase) (sym sent)
          ∙ f.broadcasts
          ∙ append_assoc before (unsent s.phase) f.events),
      sym f.follows,
    )
