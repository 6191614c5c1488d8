-- ===== src/EventLoop/Replay.antt =====
-- src/main.rs: the snapshot as the subscribers can follow it.
use uclip_daemon.Base.{refl, List, inl, inr}
use uclip_daemon.Io.{drain_pending_reads}
use uclip_daemon.EventLoop.{LoopState}
use uclip_daemon.EventLoop.Run.{
  Round, end_state, dispatched, store_round, serve_round, round_after_cases, run_round,
  run_event_loop, run_event_loop-keeps,
}
use uclip_daemon.EventLoop.Frames.{
  IsFollowed, IsFollowed-same, IsFollowed-trans, on_outcomes-OnlyEntries,
}
use uclip_daemon.EventLoop.Requests.{handle_restores-OnlyRequests}

serve_round-IsFollowed : (r : Round) (l : LoopState) → IsFollowed l (serve_round r l)
unfolding serve_round store_round
serve_round-IsFollowed r l =
    let (app, outcomes) = drain_pending_reads r.order r.stored_at l.app in
    let read = record l { app = app } in
    let unseen : IsFollowed l read = IsFollowed-same {l = l} {l' = read} refl refl in
    let stored : IsFollowed read (store_round r l) =
      (on_outcomes-OnlyEntries r.clock 0 read outcomes).followed in
    let served = handle_restores-OnlyRequests r.order r.restore_env (store_round r l) r.pending in
    IsFollowed-trans unseen (
      IsFollowed-trans stored (
        IsFollowed-same {l = store_round r l} {l' = serve_round r l} served.same_broadcast
          served.same_snapshot))

run_round-IsFollowed : (r : Round) (l : LoopState) → IsFollowed l (end_state (run_round r l))
unfolding run_round dispatched
run_round-IsFollowed r l =
    let unseen : IsFollowed l (dispatched r l) =
      IsFollowed-same {l = l} {l' = dispatched r l} refl refl in
    elim (round_after_cases r.dispatch_fails r (dispatched r l)) [
      | inl e ↦ rw e unseen
      | inr e ↦ rw e (IsFollowed-trans unseen (serve_round-IsFollowed r (dispatched r l)))
    ]

-- Between two rounds of the loop, the snapshot and the events agree: whatever any number of rounds
-- do, and however they end, the events sent in them turn the snapshot before them into the one
-- after them, if the row of each is pushed as the daemon does.
pub run_event_loop-IsFollowed :
    (rs : List Round) (l : LoopState) → IsFollowed l (end_state (run_event_loop rs l))
run_event_loop-IsFollowed rs l =
    run_event_loop-keeps (λ _ l'. IsFollowed l l') (λ l'. IsFollowed l l') (λ _ _ h. h)
      (λ r _ l' h. IsFollowed-trans h (run_round-IsFollowed r l')) rs l
      (IsFollowed-same {l = l} {l' = l} refl refl)
