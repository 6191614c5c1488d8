-- ===== src/System/Restores.antt =====
-- src/main.rs and src/daemon/server.rs: the way of a restore, from the line of a client through the
-- channel of the requests to the Wayland thread, and of its answer back.
pub mod Runs
pub mod Answered
use uclip_daemon.Base.{
  ℕ, zero, suc, ◌+◌, ◌≤◌, ◌<◌, ◌≡◌, ◌≢◌, refl, sym, ap, subst, ◌∙◌, ◌⊎◌, inl, inr, String, List, [],
  ◌∷◌, ◌++◌, Bool, true, false, Option, none, some, eqb, append_assoc, Bool-cases, arith, All,
  All-append,
}
use uclip_daemon.Text.{Chars}
use uclip_daemon.Daemon.Types.{DaemonResponse}
use uclip_daemon.Daemon.Broadcast.{Broadcast}
use uclip_daemon.Daemon.Server.{Parsed, line}
use uclip_daemon.Daemon.Server.Serve.{update, get_elem?}
use uclip_daemon.Daemon.Server.Isolation.{some_inj}
use uclip_daemon.EventLoop.{PendingRestore}
use uclip_daemon.EventLoop.Answers.{IsAnswer}
use uclip_daemon.System.{
  reply_of, Task, System, boot, asks_restore, Turn, read, refused, resolved, receive, Step, thread,
  accept, turn, ask, Steps, here, next,
}
use uclip_daemon.System.Frame.{tasks-ThreadStep}
use uclip_daemon.System.Serving.{
  IsManaged, Serves, serves_none, serves_first, ThreadStep-IsManaged, ThreadStep-Serves,
  channels-ThreadStep,
}

abbrev pub request_of : ℕ → ℕ → PendingRestore
request_of id n = record { entry_id = id; reply = n }

-- The request `id` of channel `n` waits, or its answer is there, or the thread is over. No other entry is requested
-- through that channel, and every answer of it fits.
pub record IsRouted (over : Bool) (id n channels : ℕ) (requests : List PendingRestore)
    (replies : List (ℕ × DaemonResponse)) : Type 0 where
  pub below : n < channels
  pub queued : All (λ (p : PendingRestore). p.reply ≡ n → p.entry_id ≡ id) requests
  pub fitting : All (λ (r : ℕ × DaemonResponse). r.0 ≡ n → IsAnswer (request_of id n) r) replies
  pub held :
      ((ps qs : List PendingRestore) × (requests ≡ ps ++ request_of id n ∷ qs))
      ⊎ ((r : DaemonResponse) × (reply_of n replies ≡ some r))
      ⊎ (over ≡ true)

pub All-mono :
    {A : Type 0} (P Q : A → Type 0) (xs : List A) → ((x : A) → P x → Q x) → All P xs → All Q xs
All-mono P Q [] f h = tt
All-mono P Q (x ∷ xs) f h = (f x h.0, All-mono P Q xs f h.1)

pub All-update :
    {A : Type 0} (P : A → Type 0) (xs : List A) (k : ℕ) (y : A)
    → P y
    → All P xs
    → All P (update k (λ _. y) xs)
unfolding update
All-update P [] k y p h = tt
All-update P (x ∷ xs) zero y p h = (p, h.1)
All-update P (x ∷ xs) (suc k) y p h = (h.0, All-update P xs k y p h.1)

pub All-get_elem? :
    {A : Type 0} (P : A → Type 0) (xs : List A) (k : ℕ) (y : A)
    → get_elem? xs k ≡ some y
    → All P xs
    → P y
unfolding get_elem?
All-get_elem? P [] k y e h = absurd cc
All-get_elem? P (x ∷ xs) zero y e h = let same : x ≡ y = cc in subst P same h.0
All-get_elem? P (x ∷ xs) (suc k) y e h = All-get_elem? P xs k y e h.1

-- Later answers leave an answer as it is.
reply_of-append :
    (n : ℕ) (rs ts : List (ℕ × DaemonResponse)) (r : DaemonResponse)
    → reply_of n rs ≡ some r
    → reply_of n (rs ++ ts) ≡ some r
unfolding reply_of
reply_of-append n [] ts r h = absurd cc
reply_of-append n ((m, x) ∷ rs) ts r h = ground (arith, reply_of-append n rs ts r)

reply_of-last :
    (n : ℕ) (rs : List (ℕ × DaemonResponse)) (r : DaemonResponse)
    → (x : DaemonResponse) × (reply_of n (rs ++ (n, r) ∷ []) ≡ some x)
unfolding reply_of
reply_of-last n [] r = (r, ground arith)
reply_of-last n ((m, x) ∷ rs) r = elim (Bool-cases (eqb m n)) [
  | inl e ↦ (x, rw e refl)
  | inr e ↦ let (y, h) = reply_of-last n rs r in (y, rw e h)
]

pub reply_of-fitting :
    (id n : ℕ) (rs : List (ℕ × DaemonResponse)) (r : DaemonResponse)
    → All (λ (x : ℕ × DaemonResponse). x.0 ≡ n → IsAnswer (request_of id n) x) rs
    → reply_of n rs ≡ some r
    → IsAnswer (request_of id n) (n, r)
unfolding reply_of
reply_of-fitting id n [] r h e = absurd cc
reply_of-fitting id n ((m, x) ∷ rs) r h e = elim (Bool-cases (eqb m n)) [
  | inl k ↦
      let same : x ≡ r = some_inj (rw k at e) in
      subst (λ (y : DaemonResponse). IsAnswer (request_of id n) (n, y)) same
        (refl, (h.0 (ground arith)).1)
  | inr k ↦ reply_of-fitting id n rs r h.1 (rw k at e)
]

cons_inj :
    {p q : PendingRestore} {ps qs : List PendingRestore} → p ∷ ps ≡ q ∷ qs → (p ≡ q) × (ps ≡ qs)
cons_inj h = (cc, cc)

-- Serving the first request keeps the way of every request.
pub IsRouted-serves_first :
    (over : Bool) (id n channels : ℕ) (p : PendingRestore) (ps : List PendingRestore)
    (r : DaemonResponse) (rs : List (ℕ × DaemonResponse))
    → IsAnswer p (p.reply, r)
    → IsRouted over id n channels (p ∷ ps) rs
    → IsRouted over id n channels ps (rs ++ (p.reply, r) ∷ [])
IsRouted-serves_first over id n channels p ps r rs fits h = record {
  below = h.below;
  queued = h.queued.1;
  fitting = All-append _ rs _ h.fitting (λ e. fits_too (h.queued.0 e) e, tt);
  held = still_held h.held;
}
  where
    fits_too : p.entry_id ≡ id → p.reply ≡ n → IsAnswer (request_of id n) (p.reply, r)
    fits_too e k = (k, rw (sym e) fits.1)

    still_held :
        ((qs ts : List PendingRestore) × (p ∷ ps ≡ qs ++ request_of id n ∷ ts))
          ⊎ ((x : DaemonResponse) × (reply_of n rs ≡ some x))
          ⊎ (over ≡ true)
        → ((qs ts : List PendingRestore) × (ps ≡ qs ++ request_of id n ∷ ts))
          ⊎ ((x : DaemonResponse) × (reply_of n (rs ++ (p.reply, r) ∷ []) ≡ some x))
          ⊎ (over ≡ true)
    still_held (inl ([], ts, e)) =
        let same : p.reply ≡ n = ap (λ (q : PendingRestore). q.reply) (cons_inj e).0 in
        inr (inl (rw same (reply_of-last n rs r)))
    still_held (inl (q ∷ qs, ts, e)) = inl (qs, ts, (cons_inj e).1)
    still_held (inr (inl (x, e))) = inr (inl (x, reply_of-append n rs _ x e))
    still_held (inr (inr e)) = inr (inr e)

-- A request through another channel leaves the way of a request alone.
pub IsRouted-ask :
    (over : Bool) (id n channels id' : ℕ) (ps : List PendingRestore)
    (rs : List (ℕ × DaemonResponse))
    → IsRouted over id n channels ps rs
    → IsRouted over id n (channels + 1) (ps ++ request_of id' channels ∷ []) rs
IsRouted-ask over id n channels id' ps rs h = record {
  below = omega (arith, h.below);
  queued = All-append _ ps _ h.queued (λ e. absurd (omega (arith, e, h.below)), tt);
  fitting = h.fitting;
  held = longer h.held;
}
  where
    longer :
        ((qs ts : List PendingRestore) × (ps ≡ qs ++ request_of id n ∷ ts))
          ⊎ ((x : DaemonResponse) × (reply_of n rs ≡ some x))
          ⊎ (over ≡ true)
        → ((qs ts : List PendingRestore) × (ps ++ request_of id' channels ∷ []
              ≡ qs ++ request_of id n ∷ ts))
          ⊎ ((x : DaemonResponse) × (reply_of n rs ≡ some x))
          ⊎ (over ≡ true)
    longer (inl (qs, ts, e)) = inl (
      qs,
      ts ++ request_of id' channels ∷ [],
      rw e (append_assoc qs (request_of id n ∷ ts) (request_of id' channels ∷ [])),
    )
    longer (inr x) = inr x

-- The channel of a new request is its own.
pub IsRouted-new :
    (over : Bool) (id channels : ℕ) (ps : List PendingRestore) (rs : List (ℕ × DaemonResponse))
    → All (λ (p : PendingRestore). p.reply < channels) ps
    → All (λ (r : ℕ × DaemonResponse). r.0 < channels) rs
    → IsRouted over id channels (channels + 1) (ps ++ request_of id channels ∷ []) rs
IsRouted-new over id channels ps rs h k = record {
  below = omega arith;
  queued =
      All-append _ ps _ (All-mono _ _ ps (λ p l e. absurd (omega (arith, l, e))) h) (λ _. refl, tt);
  fitting = All-mono _ _ rs (λ r l e. absurd (omega (arith, l, e))) k;
  held = inl (ps, [], refl);
}

-- The thread may end in a step that serves nothing.
pub IsRouted-over :
    (over : Bool) (id n channels : ℕ) (ps : List PendingRestore) (rs : List (ℕ × DaemonResponse))
    → IsRouted false id n channels ps rs
    → IsRouted over id n channels ps rs
IsRouted-over over id n channels ps rs h = record {
  below = h.below;
  queued = h.queued;
  fitting = h.fitting;
  held = elim h.held [ inl x ↦ inl x | inr y ↦ elim y [ inl x ↦ inr (inl x) | inr e ↦ absurd cc ] ];
}

-- The thread discards the requests that wait when it returns.
pub IsRouted-discarded :
    (id n channels : ℕ) (ps : List PendingRestore) (rs : List (ℕ × DaemonResponse))
    → IsRouted false id n channels ps rs
    → IsRouted true id n channels [] rs
IsRouted-discarded id n channels ps rs h = record {
  below = h.below;
  queued = tt;
  fitting = h.fitting;
  held = inr (inr refl);
}
