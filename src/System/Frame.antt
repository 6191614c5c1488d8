-- ===== src/System/Frame.antt =====
-- src/main.rs: what one step changes for the tasks that it does not move.
use uclip_daemon.Base.{◌++◌, ◌∷◌, append-nil}
use uclip_daemon.Daemon.Types.{ServerEvent, entry_added}
use uclip_daemon.EventLoop.{on_outcome}
use uclip_daemon.EventLoop.Published.{IsPublished, on_outcome-IsPublished}
use uclip_daemon.Base.{
  [], subst, ap, ℕ, ◌≡◌, refl, sym, ◌∙◌, ◌⊎◌, inl, inr, List, true, some, String, Option, eqb,
  arith, Bool-cases,
}
use uclip_daemon.Text.{Chars}
use uclip_daemon.Daemon.Server.{Parsed}
use uclip_daemon.Daemon.Broadcast.{Broadcast}
use uclip_daemon.Daemon.Server.Serve.{update, get_elem?}
use uclip_daemon.Daemon.Server.Isolation.{some_inj, get_elem?-update}
use uclip_daemon.EventLoop.{LoopState}
use uclip_daemon.EventLoop.Frames.{
  replay, IsFollowed, IsFollowed-same, IsFollowed-trans, on_outcome-OnlyEntries,
}
use uclip_daemon.EventLoop.Requests.{handle_restore-OnlyRequests}
use uclip_daemon.System.{
  announcing, ended, running, all_served, LoopEnd, announce, after_wait, Phase, store_row, accept,
  here, ask, turn, thread, next, Step, Steps, System, ThreadStep, connect, connect_failed, dispatch,
  dispatch_failed, store, stored_all, serve_request, flush_wait,
}

-- The event of a row that is listed and not sent yet.
abbrev pub unsent : Phase → List ServerEvent
unsent (announcing e outcomes) = entry_added e ∷ []
unsent _ = []

-- The state of the thread once that event is sent.
abbrev pub settled : {b : Broadcast} → System b → LoopState
settled s = record s.loop { broadcast = s.loop.broadcast ++ unsent s.phase }

settled-same :
    {b : Broadcast} (s u : System b)
    → u.loop.broadcast ≡ s.loop.broadcast
    → u.loop.snapshot ≡ s.loop.snapshot
    → unsent u.phase ≡ unsent s.phase
    → IsFollowed (settled s) (settled u)
settled-same s u e k same =
    IsFollowed-same (ap (λ xs. xs ++ unsent u.phase) e ∙ ap (λ xs. s.loop.broadcast ++ xs) same) k

unsent-after_wait : (o : LoopEnd) → unsent (after_wait o) ≡ []
unfolding after_wait
unsent-after_wait (running l) = refl
unsent-after_wait (ended l e) = refl

-- What the thread lists in a step is what it sends in that step or the next one.
pub ThreadStep-IsFollowed :
    {b : Broadcast} {s u : System b} → ThreadStep b s u → IsFollowed (settled s) (settled u)
unfolding replay
ThreadStep-IsFollowed {s = s} {u} (connect c h k) = settled-same s u refl refl (sym (ap unsent h))
ThreadStep-IsFollowed {s = s} {u} (connect_failed c h k) =
    settled-same s u refl refl (sym (ap unsent h))
ThreadStep-IsFollowed {s = s} {u} (dispatch it at events h) =
    settled-same s u refl refl (sym (ap unsent h))
ThreadStep-IsFollowed {s = s} {u} (dispatch_failed it events e h) =
    settled-same s u refl refl (sym (ap unsent h))
ThreadStep-IsFollowed {s = s} {u} (store {o} checked now h k) =
    let (same, kept) =
      subst (IsPublished s.loop u.loop) k (on_outcome-IsPublished checked now s.loop o) in
    settled-same s u same kept (sym (ap unsent h))
ThreadStep-IsFollowed {s = s} {u} (store_row {o} {outcomes} {e} checked now h k) =
    let (sent, listed) =
      subst (IsPublished s.loop (on_outcome checked now s.loop o)) k
        (on_outcome-IsPublished checked now s.loop o) in
    record {
      events = entry_added e ∷ [];
      broadcasts =
          ap (λ xs. xs ++ entry_added e ∷ [])
            (sym (append-nil s.loop.broadcast)
              ∙ ap (λ xs. s.loop.broadcast ++ xs) (sym (ap unsent h)));
      follows = listed;
    }
ThreadStep-IsFollowed {s = s} {u} (announce {e} h) =
    IsFollowed-same
      (append-nil (s.loop.broadcast ++ entry_added e ∷ [])
        ∙ ap (λ xs. s.loop.broadcast ++ xs) (sym (ap unsent h)))
      refl
ThreadStep-IsFollowed {s = s} {u} (stored_all h) = settled-same s u refl refl (sym (ap unsent h))
ThreadStep-IsFollowed {s = s} {u} (serve_request {p} it now source h k) =
    let served = handle_restore-OnlyRequests it now source s.loop p in
    settled-same s u served.same_broadcast served.same_snapshot (ap unsent h ∙ sym (ap unsent h))
ThreadStep-IsFollowed {s = s} {u} (all_served h k) = settled-same s u refl refl (sym (ap unsent h))
ThreadStep-IsFollowed {s = s} {u} (flush_wait f w h) =
    settled-same s u refl refl (unsent-after_wait _ ∙ sym (ap unsent h))

-- A step only adds to what was broadcast.
pub broadcast-ThreadStep :
    {b : Broadcast} {s u : System b}
    → ThreadStep b s u
    → (more : List ServerEvent) × (u.loop.broadcast ≡ s.loop.broadcast ++ more)
broadcast-ThreadStep {s = s} (connect c h k) = ([], sym (append-nil s.loop.broadcast))
broadcast-ThreadStep {s = s} (connect_failed c h k) = ([], sym (append-nil s.loop.broadcast))
broadcast-ThreadStep {s = s} (dispatch it at events h) = ([], sym (append-nil s.loop.broadcast))
broadcast-ThreadStep {s = s} (dispatch_failed it events e h) =
    ([], sym (append-nil s.loop.broadcast))
broadcast-ThreadStep {s = s} (store {o} checked now h k) =
    let f = (on_outcome-OnlyEntries checked now s.loop o).followed in (f.events, f.broadcasts)
broadcast-ThreadStep {s = s} (store_row checked now h k) = ([], sym (append-nil s.loop.broadcast))
broadcast-ThreadStep {s = s} (announce {e} h) = (entry_added e ∷ [], refl)
broadcast-ThreadStep {s = s} (stored_all h) = ([], sym (append-nil s.loop.broadcast))
broadcast-ThreadStep {s = s} (serve_request {p} it now source h k) = (
  [],
  (handle_restore-OnlyRequests it now source s.loop p).same_broadcast
      ∙ sym (append-nil s.loop.broadcast),
)
broadcast-ThreadStep {s = s} (all_served h k) = ([], sym (append-nil s.loop.broadcast))
broadcast-ThreadStep {s = s} (flush_wait f w h) = ([], sym (append-nil s.loop.broadcast))

pub tasks-ThreadStep : {b : Broadcast} {s u : System b} → ThreadStep b s u → u.tasks ≡ s.tasks
tasks-ThreadStep (connect c h k) = refl
tasks-ThreadStep (connect_failed c h k) = refl
tasks-ThreadStep (dispatch it at events h) = refl
tasks-ThreadStep (dispatch_failed it events e h) = refl
tasks-ThreadStep (store checked now h k) = refl
tasks-ThreadStep (store_row checked now h k) = refl
tasks-ThreadStep (announce h) = refl
tasks-ThreadStep (stored_all h) = refl
tasks-ThreadStep (serve_request it now source h k) = refl
tasks-ThreadStep (all_served h k) = refl
tasks-ThreadStep (flush_wait f w h) = refl

pub Step-IsFollowed :
    {b : Broadcast} {parse : Chars → Parsed} {find_id : Chars → Option String} {s u : System b}
    → Step b parse find_id s u
    → IsFollowed (settled s) (settled u)
Step-IsFollowed (thread st) = ThreadStep-IsFollowed st
Step-IsFollowed {s = s} {u} accept = settled-same s u refl refl refl
Step-IsFollowed {s = s} {u} (turn j found tn) = settled-same s u refl refl refl
Step-IsFollowed {s = s} {u} (ask j l found _ _ _ _ _) = settled-same s u refl refl refl

-- What is sent while the program runs is what changes the snapshot, the rows not sent yet counted.
pub Steps-IsFollowed :
    {b : Broadcast} {parse : Chars → Parsed} {find_id : Chars → Option String} {s u : System b}
    → Steps b parse find_id s u
    → IsFollowed (settled s) (settled u)
Steps-IsFollowed {s = s} here = settled-same s s refl refl refl
Steps-IsFollowed (next r st) = IsFollowed-trans (Steps-IsFollowed r) (Step-IsFollowed st)

eqb→eq : (j k : ℕ) → eqb j k ≡ true → j ≡ k
eqb→eq j k h = ground arith

-- When task `j` is replaced, task `k` is the replaced one, or stays.
pub replaced :
    {A : Type 0} (tasks : List A) (j k : ℕ) {t t' task : A}
    → get_elem? tasks j ≡ some t
    → get_elem? tasks k ≡ some task
    → ((task ≡ t) × (get_elem? (update j (λ _. t') tasks) k ≡ some t'))
      ⊎ (get_elem? (update j (λ _. t') tasks) k ≡ some task)
replaced tasks j k {t} {t'} {task} h is_there =
    let now = get_elem?-update (λ _. t') tasks j k task is_there in
    elim (Bool-cases (eqb j k)) [
      | inl same ↦ inl (some_inj (sym is_there ∙ (rw (sym (eqb→eq j k same)) h)), rw same at now)
      | inr other ↦ inr (rw other at now)
    ]
