-- ===== src/Daemon/Server/Replies.antt =====
-- src/daemon/server.rs: the replies to the lines of a client.
use uclip_daemon.Base.{
  ◌≡◌, refl, sym, ap, ◌∙◌, inl, inr, String, List, [], ◌∷◌, ◌++◌, append-nil, append_assoc, map,
  Bool, true, false, Option, ltb, arith, All, if◌then◌else◌, Bool-cases,
}
use uclip_daemon.Base.Order.{codes}
use uclip_daemon.Text.{Chars}
use uclip_daemon.History.Content.{unwrap_or}
use uclip_daemon.Daemon.Types.{
  UiRequest, list, restore, ping, subscribe, DaemonResponse, pong, subscribed, error,
  ResponseEnvelope, max_line_bytes,
}
use uclip_daemon.Daemon.Server.{
  Answers, Input, line, Client, Next, continue, stop, Frame, response, write, reply,
  reply_best_effort, list_response, restore_response, forward, handle_request, Parsed, request,
  invalid, too_long, handle_parsed, line_bytes, handle_line, handle_client,
}

-- The answer to a request.
abbrev pub answer : Answers → UiRequest → DaemonResponse
answer a (list offset limit) = list_response a.snapshot offset limit
answer a (restore entry_id) = restore_response (a.restores entry_id)
answer a ping = pong
answer a subscribe = subscribed

abbrev pub is_subscribe : UiRequest → Bool
is_subscribe subscribe = true
is_subscribe _ = false

abbrev pub lines : List (Answers × Chars) → List (Answers × Input)
lines = map (λ l. (l.0, line l.1))

module _ (parse : Chars → Parsed) (find_id : Chars → Option String) where
  abbrev pub parsed_reply : Answers → Option String → Parsed → ResponseEnvelope
  parsed_reply a id (request r) = record { v = 1; id = r.id; resp = answer a r.req }
  parsed_reply a id (invalid e) = record {
    v = 1;
    id = unwrap_or id "";
    resp = error (codes "invalid request: " ++ e);
  }

  -- The reply that the protocol promises for a line.
  abbrev pub reply_to : Answers → Chars → ResponseEnvelope
  reply_to a l =
      if ltb max_line_bytes (line_bytes l)
      then record { v = 1; id = ""; resp = too_long (line_bytes l) }
      else parsed_reply a (find_id l) (parse l)

  -- What a round may do to a client that got its reply.
  abbrev Answered : Client → ResponseEnvelope → Next → Type 0
  Answered c r (continue c') = c'.sent ≡ c.sent ++ response r ∷ []
  Answered c r (stop c' e) = ⊥

  handle_parsed-Answered :
      (a : Answers) (c : Client) (id : Option String) (p : Parsed)
      → a.writes ≡ true
      → Answered c (parsed_reply a id p) (handle_parsed a c id p)
  unfolding handle_parsed handle_request reply write forward
  handle_parsed-Answered a c id (invalid e) w = ground arith
  handle_parsed-Answered a c id (request r) w = by_request r.req
    where
      by_request :
          (q : UiRequest)
          → Answered c (record { v = 1; id = r.id; resp = answer a q }) (handle_request a c r.id q)
      by_request (restore n) = ground arith
      by_request (list o l) = ground arith
      by_request ping = ground arith
      by_request subscribe = ground arith

  handle_line-Answered :
      (a : Answers) (c : Client) (l : Chars)
      → a.writes ≡ true
      → Answered c (reply_to a l) (handle_line parse find_id a c l)
  unfolding handle_line reply_best_effort
  handle_line-Answered a c l w = elim (Bool-cases (ltb max_line_bytes (line_bytes l))) [
    | inl long ↦ rw (long, w) refl
    | inr short ↦ rw short (handle_parsed-Answered a c (find_id l) (parse l) w)
  ]

  Answered-continue :
      (c : Client) (r : ResponseEnvelope) (n : Next)
      → Answered c r n
      → (c' : Client) × (n ≡ continue c') × (c'.sent ≡ c.sent ++ response r ∷ [])
  Answered-continue c r (continue c') h = (c', refl, h)
  Answered-continue c r (stop c' e) h = absurd h

  abbrev pub replies_to : List (Answers × Chars) → List Frame
  replies_to = map (λ l. response (reply_to l.0 l.1))

  -- While the client can be written to, lines never end the connection, whatever they hold: each
  -- is answered by one response, under its own id, in the order of the lines.
  pub replies_in_order :
      (ls : List (Answers × Chars)) (c : Client)
      → All (λ (l : Answers × Chars). l.0.writes ≡ true) ls
      → (c' : Client) × (handle_client parse find_id c (lines ls) ≡ continue c')
        × (c'.sent ≡ c.sent ++ replies_to ls)
  unfolding handle_client
  replies_in_order [] c h = (c, refl, sym (append-nil c.sent))
  replies_in_order ((a, l) ∷ ls) c h =
      let (c₁, stepped, one) =
        Answered-continue c (reply_to a l) (handle_line parse find_id a c l)
          (handle_line-Answered a c l h.0) in
      let (c₂, ran, others) = replies_in_order ls c₁ h.1 in
      (
        c₂,
        ap
              (λ (n : Next). elim n [
                | continue c' ↦ handle_client parse find_id c' (lines ls)
                | stop c' e ↦ stop c' e
              ])
              stepped
            ∙ ran,
        others
            ∙ ap (λ (f : List Frame). f ++ replies_to ls) one
            ∙ append_assoc c.sent (response (reply_to a l) ∷ []) (replies_to ls),
      )
