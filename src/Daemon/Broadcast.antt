-- ===== src/Daemon/Broadcast.antt =====
-- tokio's broadcast channel, as src/main.rs and src/daemon/server.rs use it. It is not part of the
-- program: what its documentation promises are the laws of an interface.
use uclip_daemon.Base.{ℕ, ◌+◌, length, ◌≤◌, ◌<◌, ◌≡◌, List, Option, none, some}
use uclip_daemon.Daemon.Types.{ServerEvent}
use uclip_daemon.Daemon.Server.Serve.{get_elem?}

-- `broadcast::channel::<ServerEvent>(64)`
abbrev pub capacity : ℕ
capacity = 64

-- What `recv` returns while there are senders: an event, or `Lagged`.
pub data Received : Type 0 where
  value : ServerEvent → Received
  lag : ℕ → Received

-- The events that were sent so far are an argument of each operation.
pub record Broadcast : Type 1 where
  pub Receiver : Type 0
  -- How many of the events sent are behind the receiver.
  pub seen : Receiver → ℕ
  pub subscribe : List ServerEvent → Receiver
  -- `none` while the receiver waits.
  pub recv : List ServerEvent → Receiver → Option (Received × Receiver)
  -- A receiver gets what is sent after it was made.
  pub seen-subscribe : (sent : List ServerEvent) → seen (subscribe sent) ≡ length sent
  -- It waits only if nothing is left,
  pub recv-none :
      (sent : List ServerEvent) (r : Receiver) → recv sent r ≡ none → length sent ≤ seen r
  -- it gets the events one by one, in their order,
  pub recv-value :
      (sent : List ServerEvent) (r r' : Receiver) (e : ServerEvent)
      → recv sent r ≡ some (value e, r')
      → (get_elem? sent (seen r) ≡ some e) × (seen r' ≡ seen r + 1)
  -- and if it is behind by more than the capacity, it skips to the oldest event still held.
  pub recv-lag :
      (sent : List ServerEvent) (r r' : Receiver) (n : ℕ)
      → recv sent r ≡ some (lag n, r')
      → (0 < n) × (seen r' ≡ seen r + n) × (seen r' + capacity ≡ length sent)
