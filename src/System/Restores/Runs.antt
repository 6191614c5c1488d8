-- ===== src/System/Restores/Runs.antt =====
-- src/main.rs: the restores of the clients while the program runs.
use uclip_daemon.Base.{
  Option-cases, true, Bool, false, ℕ, ◌<◌, ◌≡◌, refl, subst, ◌⊎◌, inl, inr, String, List, ◌∷◌, ◌++◌,
  Option, none, some, arith, All, All-append,
}
use uclip_daemon.Text.{Chars}
use uclip_daemon.Daemon.Types.{DaemonResponse}
use uclip_daemon.Daemon.Broadcast.{Broadcast}
use uclip_daemon.Daemon.Server.{Parsed, line}
use uclip_daemon.Daemon.Server.Serve.{get_elem?}
use uclip_daemon.EventLoop.{PendingRestore}
use uclip_daemon.EventLoop.Answers.{IsAnswer}
use uclip_daemon.System.{
  is_over, reply_of, Task, System, boot, asks_restore, Turn, read, refused, resolved, receive, Step,
  thread, accept, turn, ask, Steps, here, next, ThreadStep,
}
use uclip_daemon.System.Frame.{tasks-ThreadStep}
use uclip_daemon.System.Serving.{
  IsManaged, Serves, serves_none, serves_first, discards, is_over-ThreadStep, ThreadStep-IsManaged,
  ThreadStep-Serves, channels-ThreadStep,
}
use uclip_daemon.System.Restores.{
  request_of, IsRouted, All-mono, All-update, All-get_elem?, reply_of-fitting,
  IsRouted-serves_first, IsRouted-ask, IsRouted-new, IsRouted-over, IsRouted-discarded,
}

module _ (b : Broadcast) (parse : Chars → Parsed) (find_id : Chars → Option String) where
  abbrev Follows :
      Bool → ℕ → List PendingRestore → List (ℕ × DaemonResponse) → Option (Chars × ℕ) → Type 0
  Follows over channels requests replies none = Unit
  Follows over channels requests replies (some (l, n)) =
      (id : ℕ) × (asks_restore parse (line l) ≡ some id)
      × IsRouted over id n channels requests replies

  -- Each task that waits waits for a request of its own.
  record Routes (over : Bool) (channels : ℕ) (requests : List PendingRestore)
      (replies : List (ℕ × DaemonResponse)) (tasks : List (Task b)) : Type 0 where
    fresh_requests : All (λ (p : PendingRestore). p.reply < channels) requests
    fresh_replies : All (λ (r : ℕ × DaemonResponse). r.0 < channels) replies
    awaited : All (λ (t : Task b). Follows over channels requests replies t.awaits) tasks

  abbrev RoutesIn : System b → Type 0
  RoutesIn s = Routes (is_over s.phase) s.channels s.requests s.loop.replies s.tasks

  routed_on :
      {over over' : Bool} {channels channels' : ℕ} {ps qs : List PendingRestore}
      {rs ts : List (ℕ × DaemonResponse)} (o : Option (Chars × ℕ))
      → ((id n : ℕ) → IsRouted over id n channels ps rs → IsRouted over' id n channels' qs ts)
      → Follows over channels ps rs o
      → Follows over' channels' qs ts o
  routed_on none f h = tt
  routed_on (some (l, n)) f (id, asks, h) = (id, asks, f id n h)

  -- What a step does to the way of each request.
  Routes-map :
      {over over' : Bool} {channels : ℕ} {ps qs : List PendingRestore}
      {rs ts : List (ℕ × DaemonResponse)} {tasks : List (Task b)}
      → ((id n : ℕ) → IsRouted over id n channels ps rs → IsRouted over' id n channels qs ts)
      → All (λ (p : PendingRestore). p.reply < channels) qs
      → All (λ (r : ℕ × DaemonResponse). r.0 < channels) ts
      → Routes over channels ps rs tasks
      → Routes over' channels qs ts tasks
  Routes-map {tasks} f queue sent h = record {
    fresh_requests = queue;
    fresh_replies = sent;
    awaited = All-mono _ _ tasks (λ t. routed_on t.awaits f) h.awaited;
  }

  routed_thread : {s u : System b} → ThreadStep b s u → IsManaged s → RoutesIn s → RoutesIn u
  routed_thread {s} {u} st m h = by_serving (ThreadStep-Serves st m) (
      rw (channels-ThreadStep st, tasks-ThreadStep st)
        (subst (λ (o : Bool). Routes o s.channels s.requests s.loop.replies s.tasks)
          (is_over-ThreadStep st) h))
    where
      by_serving :
          Serves s u → Routes false u.channels s.requests s.loop.replies u.tasks → RoutesIn u
      by_serving (serves_none e k) h' =
          rw (e, k)
            (Routes-map
              (λ id n. IsRouted-over (is_over u.phase) id n u.channels s.requests s.loop.replies)
              h'.fresh_requests h'.fresh_replies h')
      by_serving (discards o e k) h' =
          rw (o, e, k)
            (Routes-map (λ id n. IsRouted-discarded id n u.channels s.requests s.loop.replies) tt
              h'.fresh_replies h')
      by_serving (serves_first p r e k fits) h' =
          let first : Routes false u.channels (p ∷ u.requests) s.loop.replies u.tasks =
            subst (λ (ps : List PendingRestore). Routes false u.channels ps s.loop.replies u.tasks)
              e h' in
          rw k (
            Routes-map
              (λ id n way. IsRouted-over (is_over u.phase) id n u.channels u.requests _ (
                IsRouted-serves_first false id n u.channels p u.requests r s.loop.replies fits way))
              first.fresh_requests.1
              (All-append _ s.loop.replies _ first.fresh_replies (first.fresh_requests.0, tt))
              first)

  awaits-Turn :
      {s : System b} {t : Task b} {readable w : Bool} {t' : Task b}
      → Turn b parse find_id s t readable w t'
      → t'.awaits ≡ none
  awaits-Turn (read i e h _ _) = h
  awaits-Turn (refused l e h _ _) = h
  awaits-Turn (resolved l e _ _) = refl
  awaits-Turn (receive e h _ _) = h

  Step-RoutesIn :
      {s u : System b} → Step b parse find_id s u → IsManaged s → RoutesIn s → RoutesIn u
  Step-RoutesIn (thread st) m h = routed_thread st m h
  Step-RoutesIn {s} accept m h = record {
    fresh_requests = h.fresh_requests;
    fresh_replies = h.fresh_replies;
    awaited = All-append _ s.tasks _ h.awaited (tt, tt);
  }
  Step-RoutesIn {s} (turn {t} {t'} k found tn) m h = record {
    fresh_requests = h.fresh_requests;
    fresh_replies = h.fresh_replies;
    awaited = All-update _ s.tasks k t' (rw (awaits-Turn tn) tt) h.awaited;
  }
  Step-RoutesIn {s} (ask {t} {c} {id} k l found _ _ asks _ _) m h = record {
    fresh_requests =
        All-append _ s.requests _
          (All-mono _ _ s.requests (λ p x. omega (arith, x)) h.fresh_requests) (omega arith, tt);
    fresh_replies = All-mono _ _ s.loop.replies (λ r x. omega (arith, x)) h.fresh_replies;
    awaited =
        All-update _ s.tasks k (record t { awaits = some (l, s.channels) })
          (
            id,
            asks,
            IsRouted-new (is_over s.phase) id s.channels s.requests s.loop.replies h.fresh_requests
                h.fresh_replies,
          )
          (All-mono _ _ s.tasks
            (λ t. routed_on t.awaits (λ id' n.
              IsRouted-ask (is_over s.phase) id' n s.channels id s.requests s.loop.replies))
            h.awaited);
  }

  Step-IsManaged : {s u : System b} → Step b parse find_id s u → IsManaged s → IsManaged u
  Step-IsManaged (thread st) m = ThreadStep-IsManaged st m
  Step-IsManaged accept m = m
  Step-IsManaged (turn k found tn) m = m
  Step-IsManaged (ask k l found _ _ _ _ _) m = m

  Steps-RoutesIn : {u : System b} → Steps b parse find_id (boot b) u → IsManaged u × RoutesIn u
  Steps-RoutesIn here =
      (λ x. absurd cc, record { fresh_requests = tt; fresh_replies = tt; awaited = tt })
  Steps-RoutesIn (next r st) =
      let (m, h) = Steps-RoutesIn r in (Step-IsManaged st m, Step-RoutesIn st m h)

  -- The way of the request that a task waits for.
  pub awaited-IsRouted :
      (u : System b) (k : ℕ) (t : Task b) (l : Chars) (n : ℕ)
      → Steps b parse find_id (boot b) u
      → get_elem? u.tasks k ≡ some t
      → t.awaits ≡ some (l, n)
      → (id : ℕ) × (asks_restore parse (line l) ≡ some id)
        × IsRouted (is_over u.phase) id n u.channels u.requests u.loop.replies
  awaited-IsRouted u k t l n steps found waits =
      subst (Follows (is_over u.phase) u.channels u.requests u.loop.replies) waits
        (All-get_elem? _ u.tasks k t found (Steps-RoutesIn steps).1.awaited)

  -- The request for entry `id` waits in its channel, or the answer to it is there, or the thread
  -- has returned and discarded it.
  abbrev pub IsUnderWay : System b → ℕ → ℕ → Type 0
  IsUnderWay u id n =
      ((ps qs : List PendingRestore) × (u.requests ≡ ps ++ request_of id n ∷ qs))
      ⊎ ((r : DaemonResponse) × (reply_of n u.loop.replies ≡ some r)
          × IsAnswer (request_of id n) (n, r))
      ⊎ ((is_over u.phase ≡ true) × (reply_of n u.loop.replies ≡ none))

  pub IsUnderWay-of_routed :
      (u : System b) (id n : ℕ)
      → IsRouted (is_over u.phase) id n u.channels u.requests u.loop.replies
      → IsUnderWay u id n
  IsUnderWay-of_routed u id n way = elim (Option-cases (reply_of n u.loop.replies)) [
    | inr (r, e) ↦ inr (inl (r, e, reply_of-fitting id n u.loop.replies r way.fitting e))
    | inl e ↦ elim way.held [
      | inl x ↦ inl x
      | inr y ↦ elim y [ inl z ↦ absurd cc | inr over ↦ inr (inr (over, e)) ]
    ]
  ]

  -- Whatever has happened since the program started, a task that waits for the answer to a restore
  -- asked for one entry, and either its request for that entry waits in the channel, or the Wayland
  -- thread has answered it: the entry is restored, or there is no such entry, or no device; or the
  -- thread has returned without an answer. It never gets the answer to another request, and while
  -- the thread runs no request is lost.
  pub awaited_lem :
      (u : System b) (k : ℕ) (t : Task b) (l : Chars) (n : ℕ)
      → Steps b parse find_id (boot b) u
      → get_elem? u.tasks k ≡ some t
      → t.awaits ≡ some (l, n)
      → (id : ℕ) × (asks_restore parse (line l) ≡ some id) × IsUnderWay u id n
  awaited_lem u k t l n steps found waits =
      let (id, asks, way) = awaited-IsRouted u k t l n steps found waits in
      (id, asks, IsUnderWay-of_routed u id n way)
