-- ===== src/EventLoop/Run.antt =====
-- src/main.rs: the rounds of `run_event_loop`, and how it ends.
use uclip_daemon.Base.{
  ℕ, ◌+◌, length, ◌≡◌, refl, subst, ◌⊎◌, inl, inr, List, [], ◌∷◌, Option, none, some,
}
use uclip_daemon.Text.{Chars}
use uclip_daemon.History.Content.{BlobOrder}
use uclip_daemon.History.State.{SystemTime}
use uclip_daemon.App.{Proxy}
use uclip_daemon.App.Dispatch.{WaylandEvent, dispatch_all}
use uclip_daemon.Io.{drain_pending_reads}
use uclip_daemon.EventLoop.{LoopState, PendingRestore, on_outcomes, handle_restores}

pub data PollAnswer : Type 0 where
  woken : PollAnswer
  interrupted : PollAnswer
  poll_failed : Chars → PollAnswer

pub data LoopError : Type 0 where
  dispatch_error : Chars → LoopError
  flush_error : Chars → LoopError
  poll_error : Chars → LoopError

-- What the world gives to one round: the events that wait, the restores that are requested, and
-- what the calls of the system answer.
pub record Round : Type 0 where
  pub events : List WaylandEvent
  pub dispatch_fails : Option Chars
  pub order : BlobOrder
  pub stored_at : ℕ → SystemTime
  pub clock : ℕ → ℕ × ℕ
  pub pending : List PendingRestore
  pub restore_env : ℕ → ℕ × Proxy
  pub flush_fails : Option Chars
  pub polled : PollAnswer

pub data LoopEnd : Type 0 where
  running : LoopState → LoopEnd
  ended : LoopState → LoopError → LoopEnd

-- `event_queue.dispatch_pending(&mut state)`
unfoldable pub dispatched : Round → LoopState → LoopState
dispatched r l = record l { app = dispatch_all r.order l.app r.events }

-- The loop over the outcomes of the drained reads.
unfoldable pub store_round : Round → LoopState → LoopState
store_round r l =
    let (app, outcomes) = drain_pending_reads r.order r.stored_at l.app in
    on_outcomes r.clock 0 (record l { app = app }) outcomes

unfoldable pub serve_round : Round → LoopState → LoopState
serve_round r l = handle_restores r.order r.restore_env (store_round r l) r.pending

-- An interrupted wait goes on as a wait that ended.
unfoldable pub wait : PollAnswer → LoopState → LoopEnd
wait woken l = running l
wait interrupted l = running l
wait (poll_failed e) l = ended l (poll_error e)

unfoldable pub flush_and_wait : Option Chars → PollAnswer → LoopState → LoopEnd
flush_and_wait (some e) polled l = ended l (flush_error e)
flush_and_wait none polled l = wait polled l

unfoldable pub round_after : Option Chars → Round → LoopState → LoopEnd
round_after (some e) r l = ended l (dispatch_error e)
round_after none r l = flush_and_wait r.flush_fails r.polled (serve_round r l)

unfoldable pub run_round : Round → LoopState → LoopEnd
run_round r l = round_after r.dispatch_fails r (dispatched r l)

-- The loop goes on until one of its own calls of the system fails.
unfoldable pub run_event_loop : List Round → LoopState → LoopEnd
run_event_loop [] l = running l
run_event_loop (r ∷ rs) l = elim (run_round r l) [
  | running l' ↦ run_event_loop rs l'
  | ended l' e ↦ ended l' e
]

-- The state of the thread, whether the loop goes on or not.
abbrev pub end_state : LoopEnd → LoopState
end_state (running l) = l
end_state (ended l e) = l

abbrev pub event_count : List Round → ℕ
event_count [] = 0
event_count (r ∷ rs) = length r.events + event_count rs

pub LoopEnd-cases :
    (o : LoopEnd)
    → ((l : LoopState) × (o ≡ running l)) ⊎ ((l : LoopState) × (e : LoopError) × (o ≡ ended l e))
LoopEnd-cases (running l) = inl (l, refl)
LoopEnd-cases (ended l e) = inr (l, e, refl)

pub flush_and_wait-state :
    (f : Option Chars) (p : PollAnswer) (l : LoopState) → end_state (flush_and_wait f p l) ≡ l
unfolding flush_and_wait wait
flush_and_wait-state (some e) p l = refl
flush_and_wait-state none woken l = refl
flush_and_wait-state none interrupted l = refl
flush_and_wait-state none (poll_failed e) l = refl

-- A round that fails to dispatch does no more; any other serves.
pub round_after_cases :
    (f : Option Chars) (r : Round) (l : LoopState)
    → (end_state (round_after f r l) ≡ l) ⊎ (end_state (round_after f r l) ≡ serve_round r l)
unfolding round_after
round_after_cases (some e) r l = inl refl
round_after_cases none r l = inr (flush_and_wait-state r.flush_fails r.polled (serve_round r l))

-- What each round keeps holds when the loop stops, however it stops.
module _ (P : List Round → LoopState → Type 0) (Q : LoopState → Type 0)
    (holds : (rs : List Round) (l : LoopState) → P rs l → Q l)
    (keeps : (r : Round) (rs : List Round) (l : LoopState)
      → P (r ∷ rs) l
      → P rs (end_state (run_round r l))) where
  pub run_event_loop-keeps :
      (rs : List Round) (l : LoopState) → P rs l → Q (end_state (run_event_loop rs l))
  unfolding run_event_loop
  run_event_loop-keeps [] l h = holds [] l h
  run_event_loop-keeps (r ∷ rs) l h =
      let kept = keeps r rs l h in
      elim (LoopEnd-cases (run_round r l)) [
        | inl (l', e) ↦
            rw (e, run_event_loop)
              (run_event_loop-keeps rs l' (subst (λ (o : LoopEnd). P rs (end_state o)) e kept))
        | inr (l', x, e) ↦
            rw (e, run_event_loop)
              (holds rs l' (subst (λ (o : LoopEnd). P rs (end_state o)) e kept))
      ]
