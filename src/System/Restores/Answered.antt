-- ===== src/System/Restores/Answered.antt =====
-- src/daemon/server.rs: the frame that answers a restore.
use uclip_daemon.Base.{
  List, ℕ, ◌≡◌, ◌≢◌, refl, sym, ap, subst, ◌∙◌, ◌⊎◌, inl, inr, String, [], ◌∷◌, ◌++◌, Bool, true,
  false, Option, none, some, ltb, Bool-cases,
}
use uclip_daemon.Base.Order.{codes}
use uclip_daemon.Text.{Chars}
use uclip_daemon.Daemon.Types.{
  UiRequest, list, restore, ping, subscribe, DaemonResponse, error, RequestEnvelope, max_line_bytes,
}
use uclip_daemon.Daemon.Broadcast.{Broadcast}
use uclip_daemon.Daemon.Server.{
  RestoreAnswer, Answers, Client, Next, continue, response, Parsed, request, invalid, line,
  line_bytes, restore_response, step,
}
use uclip_daemon.Daemon.Server.Serve.{get_elem?}
use uclip_daemon.Daemon.Server.Isolation.{some_inj}
use uclip_daemon.Daemon.Server.Subscription.{client_of}
use uclip_daemon.Daemon.Server.Transcript.{goes_on, survives, when, owed, step-Follows}
use uclip_daemon.EventLoop.Answers.{IsAnswer}
use uclip_daemon.System.{
  PendingRestore, reply_of, restore_id, is_over, Task, System, boot, answers, Resolves, by_reply,
  by_drop, by_timeout, asks_restore, parsed_restore, Turn, read, refused, resolved, receive, Steps,
}
use uclip_daemon.System.Restores.{reply_of-fitting, request_of, IsRouted}
use uclip_daemon.System.Restores.Runs.{awaited-IsRouted}

none_ne_some : {A : Type 0} {a : A} → none ≢ some a
none_ne_some e = cc

continue_inj : {c d : Client} → continue c ≡ continue d → c ≡ d
continue_inj h = cc

-- A line that asks for a restore is a request for it, and not too long.
module _ (parse : Chars → Parsed) (find_id : Chars → Option String) where
  restore_id-some : (q : UiRequest) (id : ℕ) → restore_id q ≡ some id → q ≡ restore id
  restore_id-some (restore n) id h = ap restore (some_inj h)
  restore_id-some (list o l) id h = absurd cc
  restore_id-some ping id h = absurd cc
  restore_id-some subscribe id h = absurd cc

  parsed_restore-some :
      (p : Parsed) (id : ℕ)
      → parsed_restore p ≡ some id
      → (r : RequestEnvelope) × (p ≡ request r) × (r.req ≡ restore id)
  parsed_restore-some (request r) id h = (r, refl, restore_id-some r.req id h)
  parsed_restore-some (invalid e) id h = absurd cc

  asks_restore-some :
      (l : Chars) (id : ℕ)
      → asks_restore parse (line l) ≡ some id
      → (ltb max_line_bytes (line_bytes l) ≡ false)
        × ((r : RequestEnvelope) × (parse l ≡ request r) × (r.req ≡ restore id))
  unfolding asks_restore
  asks_restore-some l id h = elim (Bool-cases (ltb max_line_bytes (line_bytes l))) [
    | inl long ↦ absurd (none_ne_some (rw long at h))
    | inr short ↦ (short, parsed_restore-some (parse l) id (rw short at h))
  ]

  -- What is sent for such a line, and that the connection goes on if it can be written.
  sent-restore :
      (a : Answers) (c : Client) (l : Chars) (id : ℕ)
      → asks_restore parse (line l) ≡ some id
      → (r : RequestEnvelope) × (parse l ≡ request r)
        × (r.req ≡ restore id)
        × ((client_of (step parse find_id a c (line l))).sent
            ≡ c.sent
              ++ when a.writes (
                  response (record { v = 1; id = r.id; resp = restore_response (a.restores id) })
                  ∷ []))
        × (goes_on (step parse find_id a c (line l)) ≡ a.writes)
  unfolding owed survives
  sent-restore a c l id h =
      let (short, (r, parsed, wants)) = asks_restore-some l id h in
      let done = step-Follows parse find_id a c (line l) in
      (r, parsed, wants, done.sends ∙ rw (short, parsed, wants) refl, done.goes ∙ rw short refl)

-- What the client is told of a restore of entry `id`: the answer of the Wayland thread if there is
-- one; else that it timed out, and then the request still waits; or that the thread is gone.
abbrev pub IsTold : {b : Broadcast} → System b → ℕ → ℕ → DaemonResponse → Type 0
IsTold u id n r =
    ((reply_of n u.loop.replies ≡ some r) × IsAnswer (request_of id n) (n, r))
    ⊎ ((r ≡ error (codes "restore timed out"))
        × (is_over u.phase ≡ false)
        × ((ps qs : List PendingRestore) × (u.requests ≡ ps ++ request_of id n ∷ qs)))
    ⊎ ((r ≡ error (codes "restore failed: wayland thread gone"))
        × (is_over u.phase ≡ true)
        × (reply_of n u.loop.replies ≡ none))

module _ (b : Broadcast) (parse : Chars → Parsed) (find_id : Chars → Option String) where
  told :
      (u : System b) (id n : ℕ) (answer : RestoreAnswer)
      → IsRouted (is_over u.phase) id n u.channels u.requests u.loop.replies
      → Resolves b u n answer
      → IsTold u id n (restore_response answer)
  unfolding restore_response
  told u id n answer way (by_reply {r} e) =
      inl (e, reply_of-fitting id n u.loop.replies r way.fitting e)
  told u id n answer way (by_drop over e) = inr (inr (refl, over, e))
  told u id n answer way (by_timeout runs e) = inr (inl (refl, runs, queued way.held))
    where
      queued :
          ((ps qs : List PendingRestore) × (u.requests ≡ ps ++ request_of id n ∷ qs))
            ⊎ ((x : DaemonResponse) × (reply_of n u.loop.replies ≡ some x))
            ⊎ (is_over u.phase ≡ true)
          → (ps qs : List PendingRestore) × (u.requests ≡ ps ++ request_of id n ∷ qs)
      queued (inl x) = x
      queued (inr (inl (x, there))) = absurd cc
      queued (inr (inr over)) = absurd cc

  -- A task that waits goes on with its own line and the answer of its own channel.
  Turn-waiting :
      {u : System b} {t : Task b} {readable writes : Bool} {t' : Task b} (c : Client) (l : Chars)
      (n : ℕ)
      → Turn b parse find_id u t readable writes t'
      → t.state ≡ continue c
      → t.awaits ≡ some (l, n)
      → (answer : RestoreAnswer) × Resolves b u n answer
        × (t'.state ≡ step parse find_id (answers b u answer readable writes) c (line l))
        × (t'.awaits ≡ none)
  Turn-waiting c l n (read i e h _ _) on waits = absurd (none_ne_some (sym h ∙ waits))
  Turn-waiting c l n (refused l' e h _ _) on waits = absurd (none_ne_some (sym h ∙ waits))
  Turn-waiting c l n (receive e h _ _) on waits = absurd (none_ne_some (sym h ∙ waits))
  Turn-waiting {u} c l n (resolved {answer} l' e h r) on waits =
      let same = some_inj (sym h ∙ waits) in
      let client = continue_inj (sym e ∙ on) in
      (
        answer,
        subst (λ (m : ℕ). Resolves b u m answer) (ap (λ (x : Chars × ℕ). x.1) same) r,
        rw (client, ap (λ (x : Chars × ℕ). x.0) same) refl,
        refl,
      )

  -- At any time of a run of the program, the next round of a task that waits for a restore sends
  -- exactly one response, under the id of its request, and the connection goes on, if the socket can
  -- be written; if not, it sends nothing and the connection ends. The response is the answer of the
  -- Wayland thread to this very request, if it has answered: the entry is restored, or there is no
  -- such entry, or no device. Without an answer, it says that the thread is gone if the thread has
  -- returned, and only else that the restore timed out; then the request still waits unserved.
  pub restore_answered :
      (u : System b) (k : ℕ) (t : Task b) (readable writes : Bool) (t' : Task b) (c : Client)
      (l : Chars) (n : ℕ)
      → Steps b parse find_id (boot b) u
      → get_elem? u.tasks k ≡ some t
      → t.state ≡ continue c
      → t.awaits ≡ some (l, n)
      → Turn b parse find_id u t readable writes t'
      → (q : RequestEnvelope) × (id : ℕ) × (r : DaemonResponse) × (parse l ≡ request q)
        × (q.req ≡ restore id)
        × IsTold u id n r
        × ((client_of t'.state).sent
            ≡ c.sent ++ when writes (response (record { v = 1; id = q.id; resp = r }) ∷ []))
        × (goes_on t'.state ≡ writes)
        × (t'.awaits ≡ none)
  restore_answered u k t readable writes t' c l n steps found on waits tn =
      let (id, asks, way) = awaited-IsRouted b parse find_id u k t l n steps found waits in
      let (answer, resolves, e, resumed) = Turn-waiting c l n tn on waits in
      let (q, parsed, wants, sent, goes) =
        sent-restore parse find_id (answers b u answer readable writes) c l id asks in
      (
        q,
        id,
        restore_response answer,
        parsed,
        wants,
        told u id n answer way resolves,
        ap (λ (m : Next). (client_of m).sent) e ∙ sent,
        ap goes_on e ∙ goes,
        resumed,
      )
