-- ===== src/System/Listed.antt =====
-- src/main.rs: the history and its snapshot while the program runs.
use uclip_daemon.Base.{
  Option, ℕ, ◌+◌, ◌*◌, ◌^◌, ◌≤◌, ◌<◌, ◌≡◌, refl, sym, ap, subst, ◌∙◌, String, List, [], length,
  arith, append-nil,
}
use uclip_daemon.Text.{Chars}
use uclip_daemon.Config.{max_mimes_per_selection}
use uclip_daemon.History.State.{ClipState}
use uclip_daemon.History.State.Valid.{IsValid, new-IsValid}
use uclip_daemon.App.{new}
use uclip_daemon.App.Dispatch.{dispatch_all}
use uclip_daemon.App.Steady.{dispatch_all-IsSteady}
use uclip_daemon.Io.{ReadOutcome}
use uclip_daemon.Io.Keeps.{pending_reads-drain_pending_reads}
use uclip_daemon.Daemon.Broadcast.{Broadcast}
use uclip_daemon.Daemon.Server.{Parsed}
use uclip_daemon.EventLoop.{LoopState}
use uclip_daemon.EventLoop.Startup.{first_loop}
use uclip_daemon.EventLoop.Behind.{IsBehind}
use uclip_daemon.EventLoop.Listed.{on_outcome-IsBehind}
use uclip_daemon.EventLoop.Rounds.{
  IsListed, IsListed-same, caught_up-IsListed, reserved, drained-IsBehind, listed-IsBehind,
}
use uclip_daemon.EventLoop.Lifetime.{ready}
use uclip_daemon.EventLoop.Frames.{on_outcome-OnlyEntries}
use uclip_daemon.EventLoop.Requests.{handle_restore-OnlyRequests}
use uclip_daemon.EventLoop.Run.{LoopEnd, running, ended, flush_and_wait}
use uclip_daemon.System.{
  polling, all_served, announce, announcing, store_row, connecting, dispatching, serving,
  after_wait, Phase, storing, System, boot, ThreadStep, connect, connect_failed, dispatch,
  dispatch_failed, store, stored_all, serve_request, flush_wait, Step, thread, accept, turn, ask,
  Steps, here, next,
}

-- The outcomes that the thread has not handled yet.
abbrev pub waiting : Phase → List ReadOutcome
waiting (storing outcomes) = outcomes
waiting (announcing e outcomes) = outcomes
waiting _ = []

waiting-after_wait : (o : LoopEnd) → waiting (after_wait o) ≡ []
unfolding after_wait
waiting-after_wait (running l) = refl
waiting-after_wait (ended l e) = refl

module _ (b : Broadcast) where
  -- The events of the compositor that a step dispatches.
  abbrev dispatched_in : {s u : System b} → ThreadStep b s u → ℕ
  dispatched_in (connect c h k) = length c.first.events + length c.second.events
  dispatched_in (dispatch it at events h) = length events
  dispatched_in (dispatch_failed it events e h) = length events
  dispatched_in _ = 0

  -- The ids that may be given are few, and the snapshot lags only by the outcomes that wait.
  record IsCurrent (bound : ℕ) (s : System b) : Type 0 where
    behind : IsBehind s.loop.app.clipboard s.loop.snapshot (waiting s.phase)
    few : reserved s.loop.app ≤ bound
    started : reserved new ≤ bound

  at_rest :
      {n : ℕ} (s : System b) (p : Phase)
      → s.phase ≡ p
      → waiting p ≡ []
      → IsCurrent n s
      → IsListed s.loop
  at_rest s p e none_waits i =
      caught_up-IsListed s.loop
        (subst (IsBehind s.loop.app.clipboard s.loop.snapshot) (ap waiting e ∙ none_waits) i.behind)

  ThreadStep-IsCurrent :
      {s u : System b} (n : ℕ) (st : ThreadStep b s u)
      → n + max_mimes_per_selection * dispatched_in st < 2 ^ 64
      → IsCurrent n s
      → IsCurrent (n + max_mimes_per_selection * dispatched_in st) u
  ThreadStep-IsCurrent {s} n (connect {app} c h k) room i =
      let r = ready c app k in
      record {
        behind =
            listed-IsBehind (record s.loop { app = app })
              (record {
                valid = subst IsValid (sym r.no_history) new-IsValid;
                listed = rw r.no_history (s.loop.snapshot, sym (append-nil s.loop.snapshot));
                bounded = i.behind.bounded;
              });
        few = omega (arith, i.started, r.few_reads, ap (λ (x : ClipState). x.next_id) r.no_history);
        started = omega (arith, i.started);
      }
  ThreadStep-IsCurrent {s} n (connect_failed c h k) room i = record {
    behind = listed-IsBehind s.loop (at_rest s connecting h refl i);
    few = omega (arith, i.few);
    started = omega (arith, i.started);
  }
  ThreadStep-IsCurrent {s} n (dispatch it at events h) room i =
      let l = record s.loop { app = dispatch_all it s.loop.app events } in
      let steady = dispatch_all-IsSteady it s.loop.app events in
      let few : reserved l.app ≤ n + max_mimes_per_selection * length events =
        omega
          (arith, i.few, steady.few_reads, ap (λ (x : ClipState). x.next_id) steady.same_history) in
      let listed = IsListed-same steady.same_history refl (at_rest s dispatching h refl i) in
      let (behind, bound) = drained-IsBehind it at l listed (omega (arith, few, room)) in
      record {
        behind = behind;
        few = omega (arith, few, bound, ap length (pending_reads-drain_pending_reads it at l.app));
        started = omega (arith, i.started);
      }
  ThreadStep-IsCurrent {s} n (dispatch_failed it events e h) room i =
      let l = record s.loop { app = dispatch_all it s.loop.app events } in
      let steady = dispatch_all-IsSteady it s.loop.app events in
      record {
        behind =
            listed-IsBehind l
              (IsListed-same steady.same_history refl (at_rest s dispatching h refl i));
        few =
            omega (
              arith,
              i.few,
              steady.few_reads,
              ap (λ (x : ClipState). x.next_id) steady.same_history,
            );
        started = omega (arith, i.started);
      }
  ThreadStep-IsCurrent {s} n (store {o} {outcomes} checked now h k) room i =
      let kept = on_outcome-OnlyEntries checked now s.loop o in
      record {
        behind =
            on_outcome-IsBehind checked now s.loop o outcomes
              (subst (IsBehind s.loop.app.clipboard s.loop.snapshot) (ap waiting h) i.behind);
        few = omega (arith, i.few, kept.same_counter, ap length kept.same_reads);
        started = omega (arith, i.started);
      }
  ThreadStep-IsCurrent {s} n (store_row {o} {outcomes} checked now h k) room i =
      let kept = on_outcome-OnlyEntries checked now s.loop o in
      record {
        behind =
            on_outcome-IsBehind checked now s.loop o outcomes
              (subst (IsBehind s.loop.app.clipboard s.loop.snapshot) (ap waiting h) i.behind);
        few = omega (arith, i.few, kept.same_counter, ap length kept.same_reads);
        started = omega (arith, i.started);
      }
  ThreadStep-IsCurrent {s} n (announce h) room i = record {
    behind = subst (IsBehind s.loop.app.clipboard s.loop.snapshot) (ap waiting h) i.behind;
    few = omega (arith, i.few);
    started = omega (arith, i.started);
  }
  ThreadStep-IsCurrent {s} n (stored_all h) room i = record {
    behind = listed-IsBehind s.loop (at_rest s (storing []) h refl i);
    few = omega (arith, i.few);
    started = omega (arith, i.started);
  }
  ThreadStep-IsCurrent {s} n (serve_request {p} it now source h k) room i =
      let kept = handle_restore-OnlyRequests it now source s.loop p in
      record {
        behind =
            rw (h, kept.same_history, kept.same_snapshot)
              (listed-IsBehind s.loop (at_rest s serving h refl i));
        few = omega (
          arith,
          i.few,
          ap (λ (x : ClipState). x.next_id) kept.same_history,
          ap length kept.same_reads,
        );
        started = omega (arith, i.started);
      }
  ThreadStep-IsCurrent {s} n (all_served h k) room i = record {
    behind = listed-IsBehind s.loop (at_rest s serving h refl i);
    few = omega (arith, i.few);
    started = omega (arith, i.started);
  }
  ThreadStep-IsCurrent {s} n (flush_wait f w h) room i = record {
    behind =
        rw (waiting-after_wait (flush_and_wait f w s.loop))
          (listed-IsBehind s.loop (at_rest s polling h refl i));
    few = omega (arith, i.few);
    started = omega (arith, i.started);
  }

  module _ (parse : Chars → Parsed) (find_id : Chars → Option String) where
    abbrev step_events : {s u : System b} → Step b parse find_id s u → ℕ
    step_events (thread st) = dispatched_in st
    step_events _ = 0

    -- The events of the compositor that a run dispatches.
    unfoldable pub event_total : {s u : System b} → Steps b parse find_id s u → ℕ
    event_total here = 0
    event_total (next r st) = event_total r + step_events st

    same-IsCurrent :
        {s u : System b} (n : ℕ)
        → u.loop ≡ s.loop
        → u.phase ≡ s.phase
        → IsCurrent n s
        → IsCurrent (n + max_mimes_per_selection * 0) u
    same-IsCurrent n e k i = record {
      behind = rw (e, k) i.behind;
      few = omega (arith, i.few, ap (λ (l : LoopState). reserved l.app) e);
      started = omega (arith, i.started);
    }

    Step-IsCurrent :
        {s u : System b} (n : ℕ) (st : Step b parse find_id s u)
        → n + max_mimes_per_selection * step_events st < 2 ^ 64
        → IsCurrent n s
        → IsCurrent (n + max_mimes_per_selection * step_events st) u
    Step-IsCurrent n (thread st) room i = ThreadStep-IsCurrent n st room i
    Step-IsCurrent n accept room i = same-IsCurrent n refl refl i
    Step-IsCurrent n (turn k found tn) room i = same-IsCurrent n refl refl i
    Step-IsCurrent n (ask k l found _ _ _ _ _) room i = same-IsCurrent n refl refl i

    abbrev bound_of : {s u : System b} → ℕ → Steps b parse find_id s u → ℕ
    bound_of n r = n + max_mimes_per_selection * event_total r

    Steps-IsCurrent :
        {s u : System b} (n : ℕ) (r : Steps b parse find_id s u)
        → bound_of n r < 2 ^ 64
        → IsCurrent n s
        → IsCurrent (bound_of n r) u
    unfolding event_total
    Steps-IsCurrent {s} n here room i = same-IsCurrent n refl refl i
    Steps-IsCurrent {s} n (next {t} {u} r st) room i =
        let before = Steps-IsCurrent n r (omega (arith, room)) i in
        let after = Step-IsCurrent (bound_of n r) st (omega (arith, room)) before in
        let same : bound_of n r + max_mimes_per_selection * step_events st
            ≡ bound_of n (next r st) =
          omega arith in
        subst (λ (k : ℕ). IsCurrent k u) same after

  -- Whatever has happened since the program started, and between any two steps of the thread and of
  -- the connections, the history is valid, and the snapshot that a client can list ends in the
  -- summaries of the stored entries, in their order, up to the last ones whose outcomes the thread
  -- has not handled yet; it has at most `max_history` rows. Four types for each event that was
  -- dispatched have to be fewer than 2 ^ 63.
  pub boot-IsBehind :
      (parse : Chars → Parsed) (find_id : Chars → Option String) (u : System b)
      (r : Steps b parse find_id (boot b) u)
      → max_mimes_per_selection * event_total parse find_id r < 2 ^ 63
      → IsBehind u.loop.app.clipboard u.loop.snapshot (waiting u.phase)
  boot-IsBehind parse find_id u r room =
      (Steps-IsCurrent parse find_id (reserved new) r (omega (arith, room)) (record {
        behind =
            listed-IsBehind (first_loop new)
              (record { valid = new-IsValid; listed = ([], refl); bounded = omega arith });
        few = omega arith;
        started = omega arith;
      })).behind
