-- ===== src/Daemon/Server/Subscription.antt =====
-- src/daemon/server.rs: who receives events, and what ends a connection.
use uclip_daemon.Base.{
  ℕ, ◌≡◌, ◌≢◌, refl, sym, ◌∙◌, ◌⊎◌, inl, inr, String, List, [], ◌∷◌, Bool, true, false, Option, ltb,
  arith, All, All-append, if◌then◌else◌, Bool-cases,
}
use uclip_daemon.Text.{Chars}
use uclip_daemon.Daemon.Types.{
  ServerEvent, UiRequest, list, restore, ping, subscribe, DaemonResponse, max_line_bytes,
}
use uclip_daemon.Daemon.Server.{
  Answers, Input, eof, line, read_failed, event, lagged, closed, Client, Ending, returned_ok,
  returned_err, Next, continue, stop, Frame, response, event_frame, RestoreAnswer, channel_closed,
  replied, reply_dropped, timed_out, write, reply, reply_best_effort, send_event, forward,
  handle_request, Parsed, request, invalid, too_long, handle_parsed, line_bytes, handle_line, step,
  handle_client,
}

abbrev pub IsResponse : Frame → Type 0
IsResponse (response r) = Unit
IsResponse (event_frame e) = ⊥

-- Only a subscribed client has been sent events.
abbrev pub IsQuiet : Client → Type 0
IsQuiet c = (c.is_subscribed ≡ true) ⊎ All IsResponse c.sent

abbrev pub client_of : Next → Client
client_of (continue c) = c
client_of (stop c e) = c

reply-IsQuiet :
    (a : Answers) (c : Client) (id : String) (resp : DaemonResponse)
    → IsQuiet c
    → IsQuiet (client_of (reply a c id resp))
unfolding reply write
reply-IsQuiet a c id resp h =
    ground
      (arith, All-append IsResponse c.sent (response (record { v = 1; id = id; resp = resp }) ∷ []))

reply_best_effort-IsQuiet :
    (a : Answers) (c : Client) (id : String) (resp : DaemonResponse)
    → IsQuiet c
    → IsQuiet (client_of (reply_best_effort a c id resp))
unfolding reply_best_effort
reply_best_effort-IsQuiet a c id resp h =
    ground
      (arith, All-append IsResponse c.sent (response (record { v = 1; id = id; resp = resp }) ∷ []))

forward-IsQuiet : (r : RestoreAnswer) (n : ℕ) (c : Client) → IsQuiet c → IsQuiet (forward r n c)
unfolding forward
forward-IsQuiet channel_closed n c h = h
forward-IsQuiet (replied r) n c h = h
forward-IsQuiet reply_dropped n c h = h
forward-IsQuiet timed_out n c h = h

handle_request-IsQuiet :
    (a : Answers) (c : Client) (id : String) (q : UiRequest)
    → IsQuiet c
    → IsQuiet (client_of (handle_request a c id q))
unfolding handle_request
handle_request-IsQuiet a c id (list o l) h = reply-IsQuiet a c id _ h
handle_request-IsQuiet a c id (restore n) h =
    reply-IsQuiet a _ id _ (forward-IsQuiet (a.restores n) n c h)
handle_request-IsQuiet a c id ping h = reply-IsQuiet a c id _ h
handle_request-IsQuiet a c id subscribe h = reply-IsQuiet a _ id _ (inl refl)

handle_parsed-IsQuiet :
    (a : Answers) (c : Client) (id : Option String) (p : Parsed)
    → IsQuiet c
    → IsQuiet (client_of (handle_parsed a c id p))
unfolding handle_parsed
handle_parsed-IsQuiet a c id (request r) h = handle_request-IsQuiet a c r.id r.req h
handle_parsed-IsQuiet a c id (invalid e) h = reply-IsQuiet a c _ _ h

if-IsQuiet :
    (b : Bool) (n m : Next)
    → IsQuiet (client_of n)
    → IsQuiet (client_of m)
    → IsQuiet (client_of (if b then n else m))
if-IsQuiet true n m h k = h
if-IsQuiet false n m h k = k

if_true : {b : Bool} → b ≡ true → (n m : Next) → (if b then n else m) ≡ n
if_true h n m = rw h

if_false : {b : Bool} → b ≡ false → (n m : Next) → (if b then n else m) ≡ m
if_false h n m = rw h

continue_ne_stop : {c c' : Client} {e : Ending} → continue c ≢ stop c' e
continue_ne_stop h = cc

-- How a reply can end the connection.
abbrev WriteFailed : Answers → Ending → Type 0
WriteFailed a e = (a.writes ≡ false) × (e ≡ returned_err)

module _ (a : Answers) {c' : Client} {e : Ending} where
  reply-stop :
      (c : Client) (id : String) (resp : DaemonResponse)
      → reply a c id resp ≡ stop c' e
      → WriteFailed a e
  unfolding reply write
  reply-stop c id resp h = ground arith

  send_event-stop : (c : Client) (v : ServerEvent) → send_event a c v ≡ stop c' e → WriteFailed a e
  unfolding send_event write
  send_event-stop c v h = ground arith

  reply_best_effort-stop :
      (c : Client) (id : String) (resp : DaemonResponse) → reply_best_effort a c id resp ≢ stop c' e
  unfolding reply_best_effort
  reply_best_effort-stop c id resp h = ground arith

  handle_parsed-stop :
      (c : Client) (id : Option String) (p : Parsed)
      → handle_parsed a c id p ≡ stop c' e
      → WriteFailed a e
  unfolding handle_parsed handle_request
  handle_parsed-stop c id (invalid x) h = reply-stop c _ _ h
  handle_parsed-stop c id (request r) h = by_request r.req h
    where
      by_request : (q : UiRequest) → handle_request a c r.id q ≡ stop c' e → WriteFailed a e
      by_request (list o l) k = reply-stop _ _ _ k
      by_request (restore n) k = reply-stop _ _ _ k
      by_request ping k = reply-stop _ _ _ k
      by_request subscribe k = reply-stop _ _ _ k

module _ (parse : Chars → Parsed) (find_id : Chars → Option String) where
  handle_line-IsQuiet :
      (a : Answers) (c : Client) (l : Chars)
      → IsQuiet c
      → IsQuiet (client_of (handle_line parse find_id a c l))
  unfolding handle_line
  handle_line-IsQuiet a c l h = elim (Bool-cases (ltb max_line_bytes (line_bytes l))) [
    | inl long ↦ rw long (reply_best_effort-IsQuiet a c "" (too_long (line_bytes l)) h)
    | inr short ↦ rw short (handle_parsed-IsQuiet a c (find_id l) (parse l) h)
  ]

  step-IsQuiet :
      (a : Answers) (c : Client) (i : Input)
      → IsQuiet c
      → IsQuiet (client_of (step parse find_id a c i))
  unfolding step send_event write
  step-IsQuiet a c eof h = h
  step-IsQuiet a c (read_failed e) h = h
  step-IsQuiet a c (line l) h = handle_line-IsQuiet a c l h
  step-IsQuiet a c (event e) h = ground arith
  step-IsQuiet a c (lagged n) h = if-IsQuiet c.is_subscribed _ _ (reply-IsQuiet a c "" _ h) h
  step-IsQuiet a c closed h = ground arith

  -- A client that has not subscribed is never sent an event, whatever happens on its connection.
  pub handle_client-IsQuiet :
      (inputs : List (Answers × Input)) (c : Client)
      → IsQuiet c
      → IsQuiet (client_of (handle_client parse find_id c inputs))
  unfolding handle_client
  handle_client-IsQuiet [] c h = h
  handle_client-IsQuiet ((a, i) ∷ inputs) c h =
      go (handle_client-IsQuiet inputs) (step parse find_id a c i) (step-IsQuiet a c i h)
    where
      go :
          ((d : Client) → IsQuiet d → IsQuiet (client_of (handle_client parse find_id d inputs)))
          → (n : Next) → IsQuiet (client_of n)
          → IsQuiet (
              client_of (elim n [
                | continue d ↦ handle_client parse find_id d inputs
                | stop d e ↦ stop d e
              ]))
      go later (continue d) k = later d k
      go later (stop d e) k = k

  handle_line-stop :
      (a : Answers) (c : Client) (l : Chars) {c' : Client} {e : Ending}
      → handle_line parse find_id a c l ≡ stop c' e
      → WriteFailed a e
  unfolding handle_line
  handle_line-stop a c l h = elim (Bool-cases (ltb max_line_bytes (line_bytes l))) [
    | inl long ↦ absurd (reply_best_effort-stop a c "" _ (sym (if_true long _ _) ∙ h))
    | inr short ↦ handle_parsed-stop a c _ _ (sym (if_false short _ _) ∙ h)
  ]

  -- A connection ends in an error only where reading or writing failed, and without one only at
  -- the end of the input or, for a subscriber, when the daemon closes the channel.
  pub step-stop :
      (a : Answers) (c c' : Client) (i : Input) (e : Ending)
      → step parse find_id a c i ≡ stop c' e
      → ((a.writes ≡ false) × (e ≡ returned_err))
        ⊎ ((x : Chars) × (i ≡ read_failed x) × (e ≡ returned_err))
        ⊎ ((i ≡ eof) × (e ≡ returned_ok))
        ⊎ ((i ≡ closed) × (c.is_subscribed ≡ true) × (e ≡ returned_ok))
  unfolding step
  step-stop a c c' eof e h = ground arith
  step-stop a c c' (read_failed x) e h = inr (inl (x, refl, ground arith))
  step-stop a c c' (line l) e h = inl (handle_line-stop a c l h)
  step-stop a c c' (event v) e h = elim (Bool-cases c.is_subscribed) [
    | inl on ↦ inl (send_event-stop a c v (sym (if_true on _ _) ∙ h))
    | inr off ↦ absurd (continue_ne_stop (sym (if_false off _ _) ∙ h))
  ]
  step-stop a c c' (lagged n) e h = elim (Bool-cases c.is_subscribed) [
    | inl on ↦ inl (reply-stop a c _ _ (sym (if_true on _ _) ∙ h))
    | inr off ↦ absurd (continue_ne_stop (sym (if_false off _ _) ∙ h))
  ]
  step-stop a c c' closed e h = ground arith
