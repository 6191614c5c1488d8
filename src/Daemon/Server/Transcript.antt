-- ===== src/Daemon/Server/Transcript.antt =====
-- src/daemon/server.rs: everything that is written to a client, as the protocol says it.
use uclip_daemon.Base.{
  ℕ, ◌≡◌, refl, sym, ap, ◌∙◌, String, List, [], ◌∷◌, ◌++◌, append-nil, append_assoc, Bool, true,
  false, not, ◌||◌, ◌&&◌, Option, none, some, ltb, if◌then◌else◌, Bool-cases, inl, inr,
}
use uclip_daemon.Base.Order.{codes}
use uclip_daemon.Text.{Chars}
use uclip_daemon.Daemon.Types.{UiRequest, list, restore, ping, subscribe, error, max_line_bytes}
use uclip_daemon.Daemon.Server.{
  Answers, Input, eof, line, read_failed, event, lagged, closed, Client, Next, continue, stop,
  Frame, response, event_frame, write, reply, send_event, reply_best_effort, forward,
  handle_request, Parsed, request, invalid, handle_parsed, line_bytes, handle_line, step,
  handle_client, returned_ok, returned_err, RestoreAnswer, channel_closed, replied, reply_dropped,
  timed_out,
}
use uclip_daemon.Daemon.Server.Replies.{is_subscribe, answer, parsed_reply, reply_to}
use uclip_daemon.Daemon.Server.Subscription.{client_of}

abbrev pub goes_on : Next → Bool
goes_on (continue c) = true
goes_on (stop c e) = false

abbrev pub when : {A : Type 0} → Bool → List A → List A
when true xs = xs
when false xs = []

abbrev asks_to_subscribe : Parsed → Bool
asks_to_subscribe (request r) = is_subscribe r.req
asks_to_subscribe (invalid e) = false

-- What a round did: the frames it sent, whether the client is subscribed after it, and whether the
-- connection goes on.
pub record HasDone (c : Client) (n : Next) (frames : List Frame) (on more : Bool) : Type 0 where
  pub sends : (client_of n).sent ≡ c.sent ++ frames
  pub subscribes : (client_of n).is_subscribed ≡ on
  pub goes : goes_on n ≡ more

-- A frame is written to a client that has changed since, but was sent no more.
write-HasDone :
    (a : Answers) (c d : Client) (f : Frame) {on : Bool}
    → d.sent ≡ c.sent
    → d.is_subscribed ≡ on
    → HasDone c (write a d f) (when a.writes (f ∷ [])) on a.writes
unfolding write
write-HasDone a c d f h k = elim (Bool-cases a.writes) [
  | inl w ↦
      rw w
        (record { sends = ap (λ (fs : List Frame). fs ++ f ∷ []) h; subscribes = k; goes = refl })
  | inr w ↦ rw w (record { sends = h ∙ sym (append-nil c.sent); subscribes = k; goes = refl })
]

or_true : (b : Bool) → true ≡ (b || true)
or_true true = refl
or_true false = refl

or_false : (b : Bool) → b ≡ (b || false)
or_false true = refl
or_false false = refl

forward_lem :
    (r : RestoreAnswer) (n : ℕ) (c : Client)
    → ((forward r n c).sent ≡ c.sent) × ((forward r n c).is_subscribed ≡ c.is_subscribed)
unfolding forward
forward_lem channel_closed n c = (refl, refl)
forward_lem (replied r) n c = (refl, refl)
forward_lem reply_dropped n c = (refl, refl)
forward_lem timed_out n c = (refl, refl)

when_nil : {A : Type 0} (b : Bool) → when {A = A} b [] ≡ []
when_nil true = refl
when_nil false = refl

-- A round that sends nothing.
quiet-HasDone :
    (a : Answers) (c : Client) (n : Next) {more : Bool}
    → (client_of n).sent ≡ c.sent
    → (client_of n).is_subscribed ≡ c.is_subscribed
    → goes_on n ≡ more
    → HasDone c n (when a.writes []) c.is_subscribed more
quiet-HasDone a c n h k m = record {
  sends =
      h
      ∙ sym (append-nil c.sent)
      ∙ ap (λ (fs : List Frame). c.sent ++ fs) (sym (when_nil a.writes));
  subscribes = k;
  goes = m;
}

if_HasDone :
    (c : Client) (n m : Next) (b : Bool) {fs : List Frame} {on : Bool}
    → HasDone c n fs on false
    → HasDone c m fs on true
    → HasDone c (if b then n else m) fs on (not b)
if_HasDone c n m true h k = h
if_HasDone c n m false h k = k

abbrev pub framed : Option Frame → List Frame
framed none = []
framed (some f) = f ∷ []

if_subscribed :
    (a : Answers) (c : Client) (n : Next) (f : Frame) (b : Bool)
    → HasDone c n (when a.writes (f ∷ [])) c.is_subscribed a.writes
    → HasDone c
        (if b then n else continue c)
        (when a.writes (framed (if b then some f else none)))
        c.is_subscribed
        (not b || a.writes)
if_subscribed a c n f true h = h
if_subscribed a c n f false h = quiet-HasDone a c (continue c) refl refl refl

best_effort-HasDone :
    (a : Answers) (c : Client) (f : Frame)
    → HasDone c
        (if a.writes then continue (record c { sent = c.sent ++ f ∷ [] }) else continue c)
        (when a.writes (f ∷ []))
        (c.is_subscribed || false)
        true
best_effort-HasDone a c f = elim (Bool-cases a.writes) [
  | inl w ↦ rw w (record { sends = refl; subscribes = or_false _; goes = refl })
  | inr w ↦ rw w (record { sends = sym (append-nil c.sent); subscribes = or_false _; goes = refl })
]

module _ (parse : Chars → Parsed) (find_id : Chars → Option String) where
  abbrev is_long : Chars → Bool
  is_long l = ltb max_line_bytes (line_bytes l)

  -- The frame that the protocol owes for an input, to a client that is subscribed or not.
  unfoldable pub owed : Answers → Bool → Input → Option Frame
  owed a on (line l) = some (response (reply_to parse find_id a l))
  owed a on (event e) = if on then some (event_frame (record { v = 1; event = e })) else none
  owed a on (lagged n) =
      if on
      then some (response (record { v = 1; id = ""; resp = error (codes "lagged, re-list") }))
      else none
  owed a on _ = none

  -- It is subscribed after the input.
  unfoldable pub subscribes_by : Bool → Input → Bool
  subscribes_by on (line l) = on || (not (is_long l) && asks_to_subscribe (parse l))
  subscribes_by on _ = on

  -- The connection goes on after the input. Only the reply to an overlong line may be lost.
  unfoldable pub survives : Answers → Bool → Input → Bool
  survives a on (line l) = is_long l || a.writes
  survives a on (event e) = not on || a.writes
  survives a on (lagged n) = not on || a.writes
  survives a on closed = not on
  survives a on _ = false

  unfoldable pub transcript : Bool → List (Answers × Input) → List Frame
  transcript on [] = []
  transcript on ((a, i) ∷ inputs) =
      when a.writes (framed (owed a on i))
      ++ when (survives a on i) (transcript (subscribes_by on i) inputs)

  handle_parsed-HasDone :
      (a : Answers) (c : Client) (id : Option String) (p : Parsed)
      → HasDone c
          (handle_parsed a c id p)
          (when a.writes (response (parsed_reply parse find_id a id p) ∷ []))
          (c.is_subscribed || asks_to_subscribe p)
          a.writes
  unfolding handle_parsed handle_request reply
  handle_parsed-HasDone a c id (invalid e) = write-HasDone a c c _ refl (or_false _)
  handle_parsed-HasDone a c id (request r) = by_request r.req
    where
      by_request :
          (q : UiRequest)
          → HasDone c
              (handle_request a c r.id q)
              (when a.writes (response (record { v = 1; id = r.id; resp = answer a q }) ∷ []))
              (c.is_subscribed || is_subscribe q)
              a.writes
      by_request (list o l) = write-HasDone a c c _ refl (or_false _)
      by_request (restore n) =
          let (same, on) = forward_lem (a.restores n) n c in
          write-HasDone a c _ _ same (on ∙ or_false _)
      by_request ping = write-HasDone a c c _ refl (or_false _)
      by_request subscribe =
          write-HasDone a c (record c { is_subscribed = true }) _ refl (or_true _)

  abbrev pub Follows : Answers → Client → Input → Next → Type 0
  Follows a c i n =
      HasDone c n (when a.writes (framed (owed a c.is_subscribed i)))
        (subscribes_by c.is_subscribed i) (survives a c.is_subscribed i)

  line-Follows :
      (a : Answers) (c : Client) (l : Chars)
      → Follows a c (line l) (handle_line parse find_id a c l)
  unfolding handle_line reply_best_effort owed subscribes_by survives
  line-Follows a c l = elim (Bool-cases (is_long l)) [
    | inl long ↦ rw long (best_effort-HasDone a c _)
    | inr short ↦ rw short (handle_parsed-HasDone a c (find_id l) (parse l))
  ]

  pub step-Follows :
      (a : Answers) (c : Client) (i : Input) → Follows a c i (step parse find_id a c i)
  unfolding step owed subscribes_by survives send_event reply
  step-Follows a c eof = quiet-HasDone a c (stop c returned_ok) refl refl refl
  step-Follows a c (read_failed e) = quiet-HasDone a c (stop c returned_err) refl refl refl
  step-Follows a c (line l) = line-Follows a c l
  step-Follows a c (event e) =
      if_subscribed a c _ _ c.is_subscribed (write-HasDone a c c _ refl refl)
  step-Follows a c (lagged n) =
      if_subscribed a c _ _ c.is_subscribed (write-HasDone a c c _ refl refl)
  step-Follows a c closed =
      if_HasDone c _ _ c.is_subscribed (quiet-HasDone a c (stop c returned_ok) refl refl refl)
        (quiet-HasDone a c (continue c) refl refl refl)

  -- Whatever arrives on a connection in whatever order, and wherever writing fails, the client has
  -- been sent exactly the transcript that the protocol says.
  pub sent-handle_client :
      (inputs : List (Answers × Input)) (c : Client)
      → (client_of (handle_client parse find_id c inputs)).sent
        ≡ c.sent ++ transcript c.is_subscribed inputs
  unfolding handle_client transcript
  sent-handle_client [] c = sym (append-nil c.sent)
  sent-handle_client ((a, i) ∷ inputs) c =
      then_sends (sent-handle_client inputs) (step parse find_id a c i) (step-Follows a c i)
    where
      then_sends :
          ((d : Client)
            → (client_of (handle_client parse find_id d inputs)).sent
              ≡ d.sent ++ transcript d.is_subscribed inputs)
          → (n : Next) {fs : List Frame} {on more : Bool} → HasDone c n fs on more
          → (client_of (elim n [
            | continue d ↦ handle_client parse find_id d inputs
            | stop d e ↦ stop d e
          ])).sent
            ≡ c.sent ++ (fs ++ when more (transcript on inputs))
      then_sends later (continue d) {fs} {on} {more} h =
          later d
          ∙ ap (λ (b : Bool). d.sent ++ transcript b inputs) h.subscribes
          ∙ ap (λ (sent : List Frame). sent ++ transcript on inputs) h.sends
          ∙ append_assoc c.sent fs (transcript on inputs)
          ∙ ap (λ (b : Bool). c.sent ++ (fs ++ when b (transcript on inputs))) h.goes
      then_sends later (stop d e) {fs} {on} {more} h =
          h.sends
          ∙ ap (λ (xs : List Frame). c.sent ++ xs) (sym (append-nil fs))
          ∙ ap (λ (b : Bool). c.sent ++ (fs ++ when b (transcript on inputs))) h.goes
