-- ===== src/EventLoop/Answers.antt =====
-- src/main.rs: the answers that the loop gives to the requests of its rounds.
use uclip_daemon.Base.{
  ℕ, ◌≡◌, ◌≢◌, ◌||◌, refl, sym, ap, subst, ◌∙◌, ◌⊎◌, inl, inr, List, [], ◌∷◌, ◌++◌, append-nil,
  append_assoc, Bool, true, false, Option, none, some,
}
use uclip_daemon.HashMap.Laws.{is_some}
use uclip_daemon.Text.{Chars}
use uclip_daemon.Error.{ClipboardError, no_device, entry_not_found}
use uclip_daemon.History.Content.{BlobOrder}
use uclip_daemon.App.{AppState, Proxy, err, restore_entry}
use uclip_daemon.App.Restore.{restore_entry_error}
use uclip_daemon.App.Steady.{announced, dispatch_all-IsSteady}
use uclip_daemon.Io.{drain_pending_reads}
use uclip_daemon.Io.Keeps.{drain_pending_reads-Keeps}
use uclip_daemon.Daemon.Types.{DaemonResponse, restored, response_of_error}
use uclip_daemon.EventLoop.{LoopState, PendingRestore, handle_restore, handle_restores}
use uclip_daemon.EventLoop.Restores.{handle_restore_lem}
use uclip_daemon.EventLoop.Frames.{on_outcomes-OnlyEntries}
use uclip_daemon.EventLoop.Requests.{handle_restore-OnlyRequests}
use uclip_daemon.EventLoop.Run.{
  Round, LoopEnd, round_after, dispatched, store_round, serve_round, run_round, run_event_loop,
  end_state, LoopEnd-cases, flush_and_wait-state,
}
use uclip_daemon.EventLoop.Ends.{round_failure, ends_with, ends_with-run_round}

-- The answer goes to the channel of the request: restored, or the entry or the device is missing.
abbrev pub IsAnswer : PendingRestore → ℕ × DaemonResponse → Type 0
IsAnswer p (reply, response) =
    (reply ≡ p.reply)
    × ((response ≡ restored p.entry_id)
        ⊎ (response ≡ response_of_error (entry_not_found p.entry_id))
        ⊎ (response ≡ response_of_error no_device))

-- One answer for each request, in their order.
pub data AreAnswers : List PendingRestore → List (ℕ × DaemonResponse) → Type 0 where
  unasked : AreAnswers [] []
  answered :
      {ps : List PendingRestore} {rs : List (ℕ × DaemonResponse)} (p : PendingRestore)
      (r : ℕ × DaemonResponse)
      → IsAnswer p r
      → AreAnswers ps rs
      → AreAnswers (p ∷ ps) (r ∷ rs)

AreAnswers-append :
    {ps qs : List PendingRestore} {rs ts : List (ℕ × DaemonResponse)}
    → AreAnswers ps rs
    → AreAnswers qs ts
    → AreAnswers (ps ++ qs) (rs ++ ts)
AreAnswers-append unasked k = k
AreAnswers-append (answered p r h hs) k = answered p r h (AreAnswers-append hs k)

-- The requests of the rounds that are served: all up to a failed dispatch, and those of the round
-- whose flush or wait fails.
abbrev asked_in : Option Chars → List PendingRestore → List PendingRestore
asked_in none pending = pending
asked_in (some e) pending = []

abbrev if_running : {E A : Type 0} → Option E → List A → List A
if_running none xs = xs
if_running (some e) xs = []

unfoldable pub asked : List Round → List PendingRestore
asked [] = []
asked (r ∷ rs) = asked_in r.dispatch_fails r.pending ++ if_running (round_failure r) (asked rs)

-- The manager is there, and the requests so far are answered.
pub record IsAnswered (ps : List PendingRestore) (l : LoopState) : Type 0 where
  pub with_manager : is_some l.app.manager ≡ true
  pub answers : AreAnswers ps l.replies

restore_entry_answer :
    (it : BlobOrder) (s : AppState) (source : Proxy) (id : ℕ) (e : ClipboardError)
    → is_some s.manager ≡ true
    → (restore_entry it s source id).1 ≡ err e
    → (e ≡ entry_not_found id) ⊎ (e ≡ no_device)
restore_entry_answer it s source id e there h = elim (restore_entry_error it s source id e h).1 [
  | inl missing ↦ inl missing.1
  | inr (inl lost) ↦ absurd (manager_lost (sym there ∙ ap is_some lost.0))
  | inr (inr missing) ↦ inr missing.1
]
  where
    manager_lost : true ≢ false
    manager_lost h = cc

-- Serving a request puts one fitting answer after the others.
pub replies-handle_restore :
    (it : BlobOrder) (now : ℕ) (source : Proxy) (l : LoopState) (p : PendingRestore)
    → is_some l.app.manager ≡ true
    → (r : DaemonResponse) × ((handle_restore it now source l p).replies
        ≡ l.replies ++ (p.reply, r) ∷ [])
      × IsAnswer p (p.reply, r)
replies-handle_restore it now source l p there = elim (handle_restore_lem it now source l p) [
  | inl (_, (entry, _, e)) ↦ (_, ap (λ (x : LoopState). x.replies) e, (refl, inl refl))
  | inr (x, failed, e) ↦ (
    _,
    ap (λ (y : LoopState). y.replies) e,
    (refl, inr (why x (restore_entry_answer it l.app source p.entry_id x there failed))),
  )
]
  where
    why :
        (x : ClipboardError)
        → (x ≡ entry_not_found p.entry_id) ⊎ (x ≡ no_device)
        → (response_of_error x ≡ response_of_error (entry_not_found p.entry_id))
          ⊎ (response_of_error x ≡ response_of_error no_device)
    why x (inl e) = inl (ap response_of_error e)
    why x (inr e) = inr (ap response_of_error e)

handle_restore-IsAnswered :
    (it : BlobOrder) (now : ℕ) (source : Proxy) (l : LoopState) (ps : List PendingRestore)
    (p : PendingRestore)
    → IsAnswered ps l
    → IsAnswered (ps ++ p ∷ []) (handle_restore it now source l p)
handle_restore-IsAnswered it now source l ps p h =
    let (r, e, fits) = replies-handle_restore it now source l p h.with_manager in
    record {
      with_manager =
          ap is_some (handle_restore-OnlyRequests it now source l p).same_manager ∙ h.with_manager;
      answers =
          subst (AreAnswers (ps ++ p ∷ [])) (sym e)
            (AreAnswers-append h.answers (answered p (p.reply, r) fits unasked));
    }

handle_restores-IsAnswered :
    (it : BlobOrder) (env : ℕ → ℕ × Proxy) (l : LoopState) (ps qs : List PendingRestore)
    → IsAnswered ps l
    → IsAnswered (ps ++ qs) (handle_restores it env l qs)
unfolding handle_restores
handle_restores-IsAnswered it env l ps [] h =
    subst (λ (xs : List PendingRestore). IsAnswered xs l) (sym (append-nil ps)) h
handle_restores-IsAnswered it env l ps (q ∷ qs) h =
    let l' = handle_restore it (env q.reply).0 (env q.reply).1 l q in
    subst (λ (xs : List PendingRestore). IsAnswered xs (handle_restores it env l' qs))
      (append_assoc ps (q ∷ []) qs)
      (handle_restores-IsAnswered it env l' (ps ++ q ∷ []) qs
        (handle_restore-IsAnswered it (env q.reply).0 (env q.reply).1 l ps q h))

dispatched-IsAnswered :
    (r : Round) (l : LoopState) (ps : List PendingRestore)
    → IsAnswered ps l
    → IsAnswered ps (dispatched r l)
unfolding dispatched
dispatched-IsAnswered r l ps h = record {
  with_manager =
      (dispatch_all-IsSteady r.order l.app r.events).manager_kept
      ∙ ap (λ (b : Bool). b || announced "ext_data_control_manager_v1" r.events) h.with_manager;
  answers = h.answers;
}

store_round-IsAnswered :
    (r : Round) (l : LoopState) (ps : List PendingRestore)
    → IsAnswered ps l
    → IsAnswered ps (store_round r l)
unfolding store_round
store_round-IsAnswered r l ps h =
    let (app, outcomes) = drain_pending_reads r.order r.stored_at l.app in
    let frame = on_outcomes-OnlyEntries r.clock 0 (record l { app = app }) outcomes in
    record {
      with_manager =
          ap is_some (frame.kept.2 ∙ (drain_pending_reads-Keeps r.order r.stored_at l.app).2)
          ∙ h.with_manager;
      answers = subst (AreAnswers ps) (sym frame.same_replies) h.answers;
    }

round_after-IsAnswered :
    (f : Option Chars) (r : Round) (l : LoopState) (ps : List PendingRestore)
    → IsAnswered ps l
    → IsAnswered (ps ++ asked_in f r.pending) (end_state (round_after f r l))
unfolding round_after serve_round
round_after-IsAnswered (some e) r l ps h =
    subst (λ (xs : List PendingRestore). IsAnswered xs l) (sym (append-nil ps)) h
round_after-IsAnswered none r l ps h =
    subst (IsAnswered (ps ++ r.pending)) (sym (flush_and_wait-state r.flush_fails r.polled _)) (
      handle_restores-IsAnswered r.order r.restore_env (store_round r l) ps r.pending
        (store_round-IsAnswered r l ps h))

run_round-IsAnswered :
    (r : Round) (l : LoopState) (ps : List PendingRestore)
    → IsAnswered ps l
    → IsAnswered (ps ++ asked_in r.dispatch_fails r.pending) (end_state (run_round r l))
unfolding run_round
run_round-IsAnswered r l ps h =
    round_after-IsAnswered r.dispatch_fails r (dispatched r l) ps (dispatched-IsAnswered r l ps h)

run_event_loop-IsAnswered :
    (rs : List Round) (l : LoopState) (ps : List PendingRestore)
    → IsAnswered ps l
    → IsAnswered (ps ++ asked rs) (end_state (run_event_loop rs l))
unfolding run_event_loop asked
run_event_loop-IsAnswered [] l ps h =
    subst (λ (xs : List PendingRestore). IsAnswered xs l) (sym (append-nil ps)) h
run_event_loop-IsAnswered (r ∷ rs) l ps h =
    let now = asked_in r.dispatch_fails r.pending in
    let kept = run_round-IsAnswered r l ps h in
    let why = sym (ends_with-run_round r l) in
    elim (LoopEnd-cases (run_round r l)) [
      | inl (l', e) ↦
          rw (e, run_event_loop, why ∙ ap ends_with e, sym (append_assoc ps now (asked rs)))
            (run_event_loop-IsAnswered rs l' (ps ++ now)
              (subst (λ (o : LoopEnd). IsAnswered (ps ++ now) (end_state o)) e kept))
      | inr (l', x, e) ↦
          rw (e, run_event_loop, why ∙ ap ends_with e, append-nil now)
            (subst (λ (o : LoopEnd). IsAnswered (ps ++ now) (end_state o)) e kept)
    ]

-- Once a manager was announced, the requests of all the rounds that are served are answered, each
-- once, in their order and on their own channel; the answer is that the entry is restored, or that
-- there is no such entry, or that there is no device. No event of the compositor changes that.
pub run_event_loop-answers :
    (rs : List Round) (l : LoopState) (ps : List PendingRestore)
    → is_some l.app.manager ≡ true
    → AreAnswers ps l.replies
    → AreAnswers (ps ++ asked rs) (end_state (run_event_loop rs l)).replies
run_event_loop-answers rs l ps there h =
    (run_event_loop-IsAnswered rs l ps (record { with_manager = there; answers = h })).answers
