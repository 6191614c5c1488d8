-- ===== src/EventLoop/Lifetime.antt =====
-- src/main.rs: the whole run of the program, from `main` on.
use uclip_daemon.Base.{
  ◌+◌, ◌*◌, ◌^◌, ◌<◌, ◌≡◌, ◌≢◌, refl, sym, ap, subst, ◌∙◌, inl, inr, [], length, arith,
}
use uclip_daemon.Base.Result.{Result, done, fail, ◌>>=◌}
use uclip_daemon.Config.{max_mimes_per_selection}
use uclip_daemon.History.State.{ClipState}
use uclip_daemon.History.State.Valid.{IsValid, new-IsValid}
use uclip_daemon.Io.{drain_pending_reads}
use uclip_daemon.Io.Keeps.{drain_pending_reads-Keeps}
use uclip_daemon.EventLoop.Frames.{on_outcomes-OnlyEntries}
use uclip_daemon.EventLoop.Requests.{handle_restores-IsOwned}
use uclip_daemon.App.{AppState}
use uclip_daemon.App.Ownership.{IsOwned, IsOwned-same}
use uclip_daemon.App.Handlers.{dispatch_all-IsOwned}
use uclip_daemon.Daemon.Server.{socket_path}
use uclip_daemon.Daemon.Server.Bind.{bind}
use uclip_daemon.EventLoop.{LoopState}
use uclip_daemon.EventLoop.Run.{
  Round, LoopEnd, end_state, event_count, dispatched, store_round, serve_round, run_round,
  run_event_loop, run_event_loop-keeps, round_after_cases,
}
use uclip_daemon.EventLoop.Startup.{
  Connection, World, setup_connection, start_runtime, bound, first_loop, start, main,
}
use uclip_daemon.EventLoop.Setup.{IsReady, setup_connection_lem}
use uclip_daemon.EventLoop.Rounds.{IsListed, run_event_loop-IsListed}
use uclip_daemon.EventLoop.Answers.{asked, AreAnswers, unasked, run_event_loop-answers}

done_inj : {E A : Type 0} {a b : A} → ◌≡◌ {A = Result E A} (done a) (done b) → a ≡ b
done_inj h = cc

done_ne_fail : {E A : Type 0} {a : A} {e : E} → ◌≢◌ {A = Result E A} (done a) (fail e)
done_ne_fail h = cc

-- A chain that returns got a result from its first step.
done_before :
    {E A B : Type 0} (m : Result E A) (f : A → Result E B) {b : B}
    → (m >>= f) ≡ done b
    → (a : A) × (m ≡ done a) × (f a ≡ done b)
done_before (done a) f h = (a, refl, h)
done_before (fail e) f h = absurd (done_ne_fail (sym h))

-- A run that got to its loop went from a connection that was ready.
main-ready :
    (w : World) (o : LoopEnd)
    → main w ≡ done o
    → (s : AppState) × (setup_connection w.connection ≡ done s)
      × (o ≡ run_event_loop w.rounds (first_loop s))
unfolding main start
main-ready w o h =
    let (l, started, ran) = done_before (start w) _ h in
    let (u, _, after_runtime) = done_before (start_runtime w.runtime_fails) _ started in
    let (path, _, after_bind) =
      done_before (bound (bind (socket_path w.runtime_dir w.uid) w.files []).1) _ after_runtime in
    let (s, connected, first) = done_before (setup_connection w.connection) _ after_bind in
    (s, connected, sym (done_inj ran) ∙ ap (run_event_loop w.rounds) (sym (done_inj first)))

-- The state that the connection returns is ready.
pub ready : (c : Connection) (s : AppState) → setup_connection c ≡ done s → IsReady c s
ready c s h = elim (setup_connection_lem c) [
  | inl (t, e, _, r) ↦ subst (IsReady c) (done_inj (sym e ∙ h)) r
  | inr (x, e, _) ↦ absurd (done_ne_fail (sym h ∙ e))
]

pub first_loop-IsListed : (c : Connection) (s : AppState) → IsReady c s → IsListed (first_loop s)
first_loop-IsListed c s h = record {
  valid = subst IsValid (sym h.no_history) new-IsValid;
  listed = rw h.no_history ([], refl);
  bounded = omega arith;
}

serve_round-IsOwned : (r : Round) (l : LoopState) → IsOwned l.app → IsOwned (serve_round r l).app
unfolding serve_round store_round
serve_round-IsOwned r l h =
    let (app, outcomes) = drain_pending_reads r.order r.stored_at l.app in
    let (made, same, _) = drain_pending_reads-Keeps r.order r.stored_at l.app in
    let (made', same', _) =
      (on_outcomes-OnlyEntries r.clock 0 (record l { app = app }) outcomes).kept in
    handle_restores-IsOwned r.order r.restore_env _ r.pending
      (IsOwned-same _ _ (made' ∙ made) (same' ∙ same) h)

run_round-IsOwned :
    (r : Round) (l : LoopState) → IsOwned l.app → IsOwned (end_state (run_round r l)).app
unfolding run_round dispatched
run_round-IsOwned r l h =
    let d = dispatch_all-IsOwned r.order l.app r.events h in
    elim (round_after_cases r.dispatch_fails r (dispatched r l)) [
      | inl e ↦ rw e d
      | inr e ↦ rw e (serve_round-IsOwned r (dispatched r l) d)
    ]

-- What holds whenever the program is past its start: the history is valid and listed, no source
-- has leaked, and each request is answered.
pub record IsSound (w : World) (l : LoopState) : Type 0 where
  pub listed : IsListed l
  pub owns : IsOwned l.app
  pub answers : AreAnswers (asked w.rounds) l.replies

-- A run of the whole program that gets to its loop, however it goes on there, leaves a valid
-- history that the snapshot lists, every source created exactly once more than destroyed if it is
-- the current one and as often otherwise, and one fitting answer for each served request, in
-- order. Four types for each event of the run have to be fewer than 2 ^ 63.
pub main-IsSound :
    (w : World) (o : LoopEnd)
    → max_mimes_per_selection
        * (length w.connection.first.events
            + length w.connection.second.events
            + event_count w.rounds)
      < 2 ^ 63
    → main w ≡ done o
    → IsSound w (end_state o)
main-IsSound w o room h =
    let (s, connected, ran) = main-ready w o h in
    let r = ready w.connection s connected in
    subst (λ (x : LoopEnd). IsSound w (end_state x)) (sym ran)
      (record {
        listed =
            run_event_loop-IsListed w.rounds (first_loop s) (first_loop-IsListed w.connection s r)
              (omega (arith, r.few_reads, ap (λ (c : ClipState). c.next_id) r.no_history));
        owns =
            run_event_loop-keeps (λ _ l. IsOwned l.app) (λ l. IsOwned l.app) (λ _ l k. k)
              (λ r _ l k. run_round-IsOwned r l k) w.rounds (first_loop s) r.owns;
        answers = run_event_loop-answers w.rounds (first_loop s) [] r.with_manager unasked;
      })
