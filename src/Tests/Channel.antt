-- ===== src/Tests/Channel.antt =====
-- A broadcast channel as a concrete function, for which the laws of the interface hold.
use uclip_daemon.Base.{
  ℕ, zero, suc, ◌+◌, ◌-◌, ◌≤◌, ◌<◌, ◌≡◌, refl, inl, inr, List, [], ◌∷◌, length, Option, none, some,
  ltb, if◌then◌else◌, arith, Bool-cases,
}
use uclip_daemon.Daemon.Types.{ServerEvent}
use uclip_daemon.Daemon.Broadcast.{Received, value, lag, capacity, Broadcast}
use uclip_daemon.Daemon.Server.Serve.{get_elem?}

-- A channel that keeps the events it may hold, with receivers that are positions.
abbrev pub next_value : Option ServerEvent → ℕ → Option (Received × ℕ)
next_value none k = none
next_value (some e) k = some (value e, k + 1)

unfoldable pub receive_at : List ServerEvent → ℕ → Option (Received × ℕ)
receive_at sent k =
    if ltb (k + capacity) (length sent)
    then some (lag (length sent - capacity - k), length sent - capacity)
    else next_value (get_elem? sent k) k

past_end : (sent : List ServerEvent) (k : ℕ) → get_elem? sent k ≡ none → length sent ≤ k
unfolding get_elem?
past_end [] k h = omega arith
past_end (e ∷ sent) zero h = absurd cc
past_end (e ∷ sent) (suc k) h = omega (arith, past_end sent k h)

next_value-none : (o : Option ServerEvent) (k : ℕ) → next_value o k ≡ none → o ≡ none
next_value-none none k h = refl
next_value-none (some e) k h = absurd cc

next_value-some :
    (o : Option ServerEvent) (k k' : ℕ) (e : ServerEvent)
    → next_value o k ≡ some (value e, k')
    → (o ≡ some e) × (k' ≡ k + 1)
next_value-some none k k' e h = absurd cc
next_value-some (some x) k k' e h = (cc, cc)

next_value-lag : (o : Option ServerEvent) (k k' n : ℕ) → next_value o k ≡ some (lag n, k') → ⊥
next_value-lag none k k' n h = cc
next_value-lag (some x) k k' n h = cc

pub recv_none : (sent : List ServerEvent) (k : ℕ) → receive_at sent k ≡ none → length sent ≤ k
unfolding receive_at
recv_none sent k h = elim (Bool-cases (ltb (k + capacity) (length sent))) [
  | inl late ↦ absurd (some_ne_none (rw late at h))
  | inr close ↦ past_end sent k (next_value-none _ k (rw close at h))
]
  where
    some_ne_none : {x : Received × ℕ} → ◌≡◌ {A = Option (Received × ℕ)} (some x) none → ⊥
    some_ne_none e = cc

pub recv_value :
    (sent : List ServerEvent) (k k' : ℕ) (e : ServerEvent)
    → receive_at sent k ≡ some (value e, k')
    → (get_elem? sent k ≡ some e) × (k' ≡ k + 1)
unfolding receive_at
recv_value sent k k' e h = elim (Bool-cases (ltb (k + capacity) (length sent))) [
  | inl late ↦ absurd (lag_ne_value (rw late at h))
  | inr close ↦ next_value-some _ k k' e (rw close at h)
]
  where
    lag_ne_value :
        {n j : ℕ} → ◌≡◌ {A = Option (Received × ℕ)} (some (lag n, j)) (some (value e, k')) → ⊥
    lag_ne_value x = cc

pub recv_lag :
    (sent : List ServerEvent) (k k' n : ℕ)
    → receive_at sent k ≡ some (lag n, k')
    → (0 < n) × (k' ≡ k + n) × (k' + capacity ≡ length sent)
unfolding receive_at
recv_lag sent k k' n h = elim (Bool-cases (ltb (k + capacity) (length sent))) [
  | inl late ↦
      let e : (length sent - capacity - k ≡ n) × (length sent - capacity ≡ k') =
        lag_inj (rw late at h) in
      let far : k + capacity < length sent = ground arith in
      (omega (arith, e.0, far), omega (arith, e.0, e.1, far), omega (arith, e.1, far))
  | inr close ↦ absurd (next_value-lag _ k k' n (rw close at h))
]
  where
    lag_inj :
        {m j : ℕ}
        → ◌≡◌ {A = Option (Received × ℕ)} (some (lag m, j)) (some (lag n, k'))
        → (m ≡ n) × (j ≡ k')
    lag_inj x = (cc, cc)

abbrev pub counting : Broadcast
counting = record {
  Receiver = ℕ;
  seen = λ k. k;
  subscribe = length;
  recv = receive_at;
  seen-subscribe = λ sent. refl;
  recv-none = recv_none;
  recv-value = recv_value;
  recv-lag = recv_lag;
}
