-- ===== src/System/Delivery/Turns.antt =====
-- src/daemon/server.rs: a round of a task keeps what its connection was sent in step with its
-- receiver.
use uclip_daemon.Base.{
  ◌≡◌, ◌≢◌, refl, sym, ap, subst, ◌∙◌, ◌⊎◌, inl, inr, String, List, [], ◌∷◌, ◌++◌, append-nil,
  append_assoc, length, length-append, Bool, true, false, Option, none, some, arith,
}
use uclip_daemon.Text.{Chars}
use uclip_daemon.Daemon.Types.{ServerEvent}
use uclip_daemon.Daemon.Broadcast.{Received, value, lag, Broadcast}
use uclip_daemon.Daemon.Server.{
  Answers, Input, eof, line, read_failed, Client, Next, continue, Frame, response, event_frame,
  Parsed, step, channel_closed,
}
use uclip_daemon.Daemon.Server.Subscription.{client_of}
use uclip_daemon.Daemon.Server.Transcript.{goes_on, when, framed, owed, survives, step-Follows}
use uclip_daemon.System.{Task, System, answers, input_of, Turn, read, refused, resolved, receive}
use uclip_daemon.System.Delivery.{
  lag_notice, Delivers, event_sent, gap, replied_to, IsDelivered, split_at, split_after,
}

-- The frame that a subscriber is owed for what it receives.
abbrev notice : Received → Frame
notice (value e) = event_frame (record { v = 1; event = e })
notice (lag n) = lag_notice

false_ne_true : false ≢ true
false_ne_true h = cc

abbrev IsLocal : Option Frame → Type 0
IsLocal none = Unit
IsLocal (some (response r)) = Unit
IsLocal (some (event_frame e)) = ⊥

Delivers-local :
    {es : List ServerEvent} {fs : List Frame} (w : Bool) (o : Option Frame)
    → IsLocal o
    → Delivers es fs
    → Delivers es (fs ++ when w (framed o))
Delivers-local {es} {fs} false o h d = subst (Delivers es) (sym (append-nil fs)) d
Delivers-local {es} {fs} true none h d = subst (Delivers es) (sym (append-nil fs)) d
Delivers-local true (some (response r)) h d = replied_to r d
Delivers-local true (some (event_frame e)) h d = absurd h

module _ (b : Broadcast) (before : List ServerEvent) (parse : Chars → Parsed)
    (find_id : Chars → Option String) where
  -- What a task sent in a round, from the frame that it owes.
  sent_after :
      (a : Answers) {c : Client} (i : Input) {n n' : Next}
      → n ≡ continue c
      → n' ≡ step parse find_id a c i
      → (client_of n').sent
        ≡ (client_of n).sent ++ when a.writes (framed (owed parse find_id a c.is_subscribed i))
  sent_after a {c} i e e' =
      let f : List Frame = when a.writes (framed (owed parse find_id a c.is_subscribed i)) in
      ap (λ (m : Next). (client_of m).sent) e'
      ∙ (step-Follows parse find_id a c i).sends
      ∙ ap (λ (m : Next). (client_of m).sent ++ f) (sym e)

  local-IsDelivered :
      (a : Answers) {c : Client} (i : Input) {now : List ServerEvent} {t t' : Task b}
      → t.state ≡ continue c
      → t'.state ≡ step parse find_id a c i
      → t'.receiver ≡ t.receiver
      → IsLocal (owed parse find_id a c.is_subscribed i)
      → IsDelivered b before now t
      → IsDelivered b before now t'
  local-IsDelivered a i e e' same loc d = record {
    events = d.events;
    rest = d.rest;
    split = d.split;
    delivers =
        subst (Delivers d.events) (sym (sent_after a i e e'))
          (Delivers-local a.writes _ loc d.delivers);
    position = λ _. ap b.seen same ∙ d.position (ap goes_on e);
  }

  line-IsLocal :
      (a : Answers) (on : Bool) (i : Input)
      → (i ≡ eof) ⊎ ((x : Chars) × (i ≡ read_failed x)) ⊎ ((l : Chars) × (i ≡ line l))
      → IsLocal (owed parse find_id a on i)
  unfolding owed
  line-IsLocal a on i (inl h) = rw h tt
  line-IsLocal a on i (inr (inl (x, h))) = rw h tt
  line-IsLocal a on i (inr (inr (l, h))) = rw h tt

  abbrev Received-IsDelivered :
      System b → Task b → Client → Received → b.Receiver → Bool → Bool → Type 0
  Received-IsDelivered s t c v r readable w = IsDelivered b before s.loop.broadcast (record t {
    state = step parse find_id (answers b s channel_closed readable w) c (input_of v);
    receiver = r;
  })

  owed-subscriber :
      (a : Answers) (on : Bool) (v : Received)
      → on ≡ true
      → owed parse find_id a on (input_of v) ≡ some (notice v)
  unfolding owed
  owed-subscriber a on (value e) h = rw h refl
  owed-subscriber a on (lag n) h = rw h refl

  survives-subscriber :
      (a : Answers) (on : Bool) (v : Received)
      → on ≡ true
      → survives parse find_id a on (input_of v) ≡ a.writes
  unfolding survives
  survives-subscriber a on (value e) h = rw h refl
  survives-subscriber a on (lag n) h = rw h refl

  -- A subscriber is sent the frame of what it receives, if it can be written.
  sent-receive :
      (a : Answers) {c : Client} (v : Received) {n : Next}
      → n ≡ continue c
      → c.is_subscribed ≡ true
      → (client_of (step parse find_id a c (input_of v))).sent
        ≡ (client_of n).sent ++ when a.writes (notice v ∷ [])
  sent-receive a {c} v {n} e on =
      sent_after a (input_of v) e refl
      ∙ ap (λ (o : Option Frame). (client_of n).sent ++ when a.writes (framed o))
          (owed-subscriber a c.is_subscribed v on)

  -- The frame of a receive cannot be written: the connection ends.
  unwritten-IsDelivered :
      (s : System b) (t : Task b) {c : Client} (v : Received) (r : b.Receiver) (readable : Bool)
      → t.state ≡ continue c
      → c.is_subscribed ≡ true
      → IsDelivered b before s.loop.broadcast t
      → Received-IsDelivered s t c v r readable false
  unwritten-IsDelivered s t {c} v r readable e on d =
      let a = answers b s channel_closed readable false in
      record {
        events = d.events;
        rest = d.rest;
        split = d.split;
        delivers =
            subst (Delivers d.events)
              (sym (sent-receive a v e on ∙ append-nil (client_of t.state).sent)) d.delivers;
        position = λ more. absurd (
            false_ne_true (
              sym (survives-subscriber a c.is_subscribed v on)
              ∙ sym (step-Follows parse find_id a c (input_of v)).goes
              ∙ more));
      }

  -- What is left starts with the events that the receiver goes past.
  passed :
      {now : List ServerEvent} {t : Task b} (d : IsDelivered b before now t)
      (zs ws : List ServerEvent)
      → d.rest ≡ zs ++ ws
      → now ≡ before ++ ((d.events ++ zs) ++ ws)
  passed d zs ws e =
      d.split
      ∙ ap (λ (xs : List ServerEvent). before ++ (d.events ++ xs)) e
      ∙ ap (λ (xs : List ServerEvent). before ++ xs) (sym (append_assoc d.events zs ws))

  receive-IsDelivered :
      (s : System b) (t : Task b) {c : Client} (v : Received) (r : b.Receiver) (readable : Bool)
      → t.state ≡ continue c
      → c.is_subscribed ≡ true
      → b.recv s.loop.broadcast t.receiver ≡ some (v, r)
      → IsDelivered b before s.loop.broadcast t
      → Received-IsDelivered s t c v r readable true
  receive-IsDelivered s t {c} (value v) r readable e on got d =
      let (found, moved) = b.recv-value s.loop.broadcast t.receiver r v got in
      let there = d.position (ap goes_on e) in
      let (rest', more) = split_at (before ++ d.events) d.rest v (
        rw
          (
            append_assoc before d.events d.rest,
            sym d.split,
            length-append before d.events,
            sym there,
          )
          found) in
      record {
        events = d.events ++ v ∷ [];
        rest = rest';
        split = passed {t = t} d (v ∷ []) rest' more;
        delivers =
            subst (Delivers (d.events ++ v ∷ [])) (sym (sent-receive _ (value v) e on))
              (event_sent v d.delivers);
        position = λ _. omega (arith, moved, there, length-append d.events (v ∷ []));
      }
  receive-IsDelivered s t {c} (lag n) r readable e on got d =
      let (some_lost, moved, limit) = b.recv-lag s.loop.broadcast t.receiver r n got in
      let there = d.position (ap goes_on e) in
      let (skipped, rest', more, size) = split_after n d.rest (
        omega (
          arith,
          moved,
          there,
          limit,
          ap length d.split,
          length-append before (d.events ++ d.rest),
          length-append d.events d.rest,
        )) in
      record {
        events = d.events ++ skipped;
        rest = rest';
        split = passed {t = t} d skipped rest' more;
        delivers =
            subst (Delivers (d.events ++ skipped)) (sym (sent-receive _ (lag n) e on))
              (gap skipped (omega arith) d.delivers);
        position = λ _. omega (arith, moved, there, size, length-append d.events skipped);
      }

  pub Turn-IsDelivered :
      {s : System b} {t : Task b} {readable w : Bool} {t' : Task b}
      → Turn b parse find_id s t readable w t'
      → IsDelivered b before s.loop.broadcast t
      → IsDelivered b before s.loop.broadcast t'
  unfolding owed
  Turn-IsDelivered {s} {readable} {w} (read i e _ h _) d =
      let a = answers b s channel_closed readable w in
      local-IsDelivered a i e refl refl (line-IsLocal a _ i h) d
  Turn-IsDelivered {s} {readable} {w} (refused l e _ _ _) d =
      local-IsDelivered (answers b s channel_closed readable w) (line l) e refl refl tt d
  Turn-IsDelivered {s} {readable} {w} (resolved {answer} l e _ _) d =
      local-IsDelivered (answers b s answer readable w) (line l) e refl refl tt d
  Turn-IsDelivered {s} {t} {readable} {w = true} (receive {v} {r} e _ on got) d =
      receive-IsDelivered s t v r readable e on got d
  Turn-IsDelivered {s} {t} {readable} {w = false} (receive {v} {r} e _ on got) d =
      unwritten-IsDelivered s t v r readable e on d
