-- ===== src/EventLoop/Ends.antt =====
-- src/main.rs: what ends `run_event_loop`.
use uclip_daemon.Base.{◌≡◌, refl, sym, ap, ◌∙◌, inl, inr, List, [], ◌∷◌, Option, none, some}
use uclip_daemon.Text.{Chars}
use uclip_daemon.EventLoop.{LoopState}
use uclip_daemon.EventLoop.Run.{
  Round, PollAnswer, woken, interrupted, poll_failed, LoopError, dispatch_error, flush_error,
  poll_error, LoopEnd, running, ended, wait, flush_and_wait, round_after, dispatched, serve_round,
  run_round, run_event_loop, LoopEnd-cases,
}

abbrev pub ends_with : LoopEnd → Option LoopError
ends_with (running l) = none
ends_with (ended l e) = some e

-- The system's failures of one round, in the order of the calls; an interrupted wait is none.
unfoldable pub failure_of : Option Chars → Option Chars → PollAnswer → Option LoopError
failure_of (some e) flush polled = some (dispatch_error e)
failure_of none (some e) polled = some (flush_error e)
failure_of none none (poll_failed e) = some (poll_error e)
failure_of none none woken = none
failure_of none none interrupted = none

abbrev pub round_failure : Round → Option LoopError
round_failure r = failure_of r.dispatch_fails r.flush_fails r.polled

abbrev pub or_later : Option LoopError → Option LoopError → Option LoopError
or_later none later = later
or_later (some e) later = some e

unfoldable pub first_failure : List Round → Option LoopError
first_failure [] = none
first_failure (r ∷ rs) = or_later (round_failure r) (first_failure rs)

ends_with-round_after :
    (f g : Option Chars) (p : PollAnswer) (r : Round) (l : LoopState)
    → r.flush_fails ≡ g
    → r.polled ≡ p
    → ends_with (round_after f r l) ≡ failure_of f g p
unfolding round_after flush_and_wait wait failure_of
ends_with-round_after (some e) g p r l h k = refl
ends_with-round_after none g p r l h k =
    ap (λ (x : Option Chars). ends_with (flush_and_wait x r.polled (serve_round r l))) h
    ∙ ap (λ (x : PollAnswer). ends_with (flush_and_wait g x (serve_round r l))) k
    ∙ waited g p
  where
    waited :
        (g : Option Chars) (p : PollAnswer)
        → ends_with (flush_and_wait g p (serve_round r l)) ≡ failure_of none g p
    waited (some e) p = refl
    waited none woken = refl
    waited none interrupted = refl
    waited none (poll_failed e) = refl

pub ends_with-run_round : (r : Round) (l : LoopState) → ends_with (run_round r l) ≡ round_failure r
unfolding run_round
ends_with-run_round r l =
    ends_with-round_after r.dispatch_fails r.flush_fails r.polled r (dispatched r l) refl refl

-- The loop ends with the first failure of a call of its own: of the dispatch, of the flush, or of a
-- wait that was not interrupted. No event, read, entry or request ends it.
pub run_event_loop_end :
    (rs : List Round) (l : LoopState) → ends_with (run_event_loop rs l) ≡ first_failure rs
unfolding run_event_loop first_failure
run_event_loop_end [] l = refl
run_event_loop_end (r ∷ rs) l = elim (LoopEnd-cases (run_round r l)) [
  | inl (l', e) ↦
      rw (e, run_event_loop)
        (run_event_loop_end rs l'
          ∙ ap (λ o. or_later o (first_failure rs))
              (ap ends_with (sym e) ∙ ends_with-run_round r l))
  | inr (l', x, e) ↦
      rw (e, run_event_loop)
        (ap (λ o. or_later o (first_failure rs)) (ap ends_with (sym e) ∙ ends_with-run_round r l))
]
