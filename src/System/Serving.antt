-- ===== src/System/Serving.antt =====
-- src/main.rs: the restore requests, as the steps of the Wayland thread serve them.
use uclip_daemon.Base.{inr, inl, ◌≡◌, ◌≢◌, refl, ap, ◌∙◌, [], ◌∷◌, ◌++◌, Bool, true, false, ◌||◌}
use uclip_daemon.HashMap.Laws.{is_some}
use uclip_daemon.App.Dispatch.{dispatch_all}
use uclip_daemon.App.Steady.{announced, dispatch_all-IsSteady}
use uclip_daemon.Io.Keeps.{drain_pending_reads-Keeps}
use uclip_daemon.Daemon.Types.{DaemonResponse}
use uclip_daemon.Daemon.Broadcast.{Broadcast}
use uclip_daemon.EventLoop.{PendingRestore}
use uclip_daemon.EventLoop.Frames.{on_outcome-OnlyEntries}
use uclip_daemon.EventLoop.Requests.{handle_restore-OnlyRequests}
use uclip_daemon.EventLoop.Answers.{IsAnswer, replies-handle_restore}
use uclip_daemon.EventLoop.Lifetime.{ready}
use uclip_daemon.EventLoop.Run.{LoopEnd-cases, flush_and_wait}
use uclip_daemon.System.{
  polling, all_served, kept_requests, announce, after_wait, announcing, is_over, store_row, Phase,
  dispatching, storing, serving, System, ThreadStep, connect, connect_failed, dispatch,
  dispatch_failed, store, stored_all, serve_request, flush_wait,
}

abbrev pub is_looping : Phase → Bool
is_looping dispatching = true
is_looping (storing os) = true
is_looping (announcing e os) = true
is_looping serving = true
is_looping polling = true
is_looping _ = false

-- In the loop, the manager is there.
abbrev pub IsManaged : {b : Broadcast} → System b → Type 0
IsManaged s = is_looping s.phase ≡ true → is_some s.loop.app.manager ≡ true

-- A step serves no request, or the first one, or it ends the thread, which discards them.
pub data Serves {b : Broadcast} (s u : System b) : Type 0 where
  serves_none : u.requests ≡ s.requests → u.loop.replies ≡ s.loop.replies → Serves s u
  discards : is_over u.phase ≡ true → u.requests ≡ [] → u.loop.replies ≡ s.loop.replies → Serves s u
  serves_first :
      (p : PendingRestore) (r : DaemonResponse)
      → s.requests ≡ p ∷ u.requests
      → u.loop.replies ≡ s.loop.replies ++ (p.reply, r) ∷ []
      → IsAnswer p (p.reply, r)
      → Serves s u

managed_at :
    {b : Broadcast} (s : System b) (p : Phase)
    → s.phase ≡ p
    → is_looping p ≡ true
    → IsManaged s
    → is_some s.loop.app.manager ≡ true
managed_at s p e k h = h (ap is_looping e ∙ k)

false_ne_true : false ≢ true
false_ne_true h = cc

pub ThreadStep-IsManaged :
    {b : Broadcast} {s u : System b} → ThreadStep b s u → IsManaged s → IsManaged u
ThreadStep-IsManaged (connect {app} c h k) m _ = (ready c app k).with_manager
ThreadStep-IsManaged (connect_failed c h k) m x = absurd (false_ne_true x)
ThreadStep-IsManaged {s = s} (dispatch it at events h) m _ =
    ap is_some (drain_pending_reads-Keeps it at (dispatch_all it s.loop.app events)).2
    ∙ (dispatch_all-IsSteady it s.loop.app events).manager_kept
    ∙ ap (λ (b : Bool). b || announced "ext_data_control_manager_v1" events)
        (managed_at s dispatching h refl m)
ThreadStep-IsManaged (dispatch_failed it events e h) m x = absurd (false_ne_true x)
ThreadStep-IsManaged {s = s} (store {o} {outcomes} checked now h k) m _ =
    ap is_some (on_outcome-OnlyEntries checked now s.loop o).kept.2
    ∙ managed_at s (storing (o ∷ outcomes)) h refl m
ThreadStep-IsManaged {s = s} (store_row {o} {outcomes} checked now h k) m _ =
    ap is_some (on_outcome-OnlyEntries checked now s.loop o).kept.2
    ∙ managed_at s (storing (o ∷ outcomes)) h refl m
ThreadStep-IsManaged {s = s} (announce {e} {outcomes} h) m _ =
    managed_at s (announcing e outcomes) h refl m
ThreadStep-IsManaged {s = s} (stored_all h) m _ = managed_at s (storing []) h refl m
ThreadStep-IsManaged {s = s} (serve_request {p} it now source h k) m _ =
    ap is_some (handle_restore-OnlyRequests it now source s.loop p).same_manager
    ∙ managed_at s serving h refl m
ThreadStep-IsManaged {s = s} (all_served h k) m _ = managed_at s serving h refl m
ThreadStep-IsManaged {s = s} (flush_wait f w h) m _ = managed_at s polling h refl m

pub ThreadStep-Serves :
    {b : Broadcast} {s u : System b} → ThreadStep b s u → IsManaged s → Serves s u
unfolding is_over after_wait kept_requests
ThreadStep-Serves (connect c h k) m = serves_none refl refl
ThreadStep-Serves (connect_failed c h k) m = discards refl refl refl
ThreadStep-Serves (dispatch it at events h) m = serves_none refl refl
ThreadStep-Serves (dispatch_failed it events e h) m = discards refl refl refl
ThreadStep-Serves {s = s} (store {o} checked now h k) m =
    serves_none refl (on_outcome-OnlyEntries checked now s.loop o).same_replies
ThreadStep-Serves {s = s} (store_row {o} checked now h k) m =
    serves_none refl (on_outcome-OnlyEntries checked now s.loop o).same_replies
ThreadStep-Serves (announce h) m = serves_none refl refl
ThreadStep-Serves (stored_all h) m = serves_none refl refl
ThreadStep-Serves {s = s} (serve_request {p} it now source h k) m =
    let (r, e, fits) =
      replies-handle_restore it now source s.loop p (managed_at s serving h refl m) in
    serves_first p r k e fits
ThreadStep-Serves (all_served h k) m = serves_none refl refl
ThreadStep-Serves {s = s} (flush_wait f w h) m = elim (LoopEnd-cases (flush_and_wait f w s.loop)) [
  | inl (l, e) ↦ serves_none (ap (λ o. kept_requests o s.requests) e) refl
  | inr (l, x, e) ↦
      discards (ap (λ o. is_over (after_wait o)) e) (ap (λ o. kept_requests o s.requests) e) refl
]

pub channels-ThreadStep :
    {b : Broadcast} {s u : System b} → ThreadStep b s u → u.channels ≡ s.channels
channels-ThreadStep (connect c h k) = refl
channels-ThreadStep (connect_failed c h k) = refl
channels-ThreadStep (dispatch it at events h) = refl
channels-ThreadStep (dispatch_failed it events e h) = refl
channels-ThreadStep (store checked now h k) = refl
channels-ThreadStep (store_row checked now h k) = refl
channels-ThreadStep (announce h) = refl
channels-ThreadStep (stored_all h) = refl
channels-ThreadStep (serve_request it now source h k) = refl
channels-ThreadStep (all_served h k) = refl
channels-ThreadStep (flush_wait f w h) = refl

-- A thread that has returned takes no step.
pub is_over-ThreadStep :
    {b : Broadcast} {s u : System b} → ThreadStep b s u → is_over s.phase ≡ false
unfolding is_over
is_over-ThreadStep (connect c h k) = ap is_over h
is_over-ThreadStep (connect_failed c h k) = ap is_over h
is_over-ThreadStep (dispatch it at events h) = ap is_over h
is_over-ThreadStep (dispatch_failed it events e h) = ap is_over h
is_over-ThreadStep (store checked now h k) = ap is_over h
is_over-ThreadStep (store_row checked now h k) = ap is_over h
is_over-ThreadStep (announce h) = ap is_over h
is_over-ThreadStep (stored_all h) = ap is_over h
is_over-ThreadStep (serve_request it now source h k) = ap is_over h
is_over-ThreadStep (all_served h k) = ap is_over h
is_over-ThreadStep (flush_wait f w h) = ap is_over h
