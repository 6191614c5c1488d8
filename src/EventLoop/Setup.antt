-- ===== src/EventLoop/Setup.antt =====
-- src/main.rs: when `setup_connection` succeeds, with what it fails otherwise, and the state it
-- returns.
use uclip_daemon.Base.{
  ◌+◌, ◌*◌, ◌≤◌, ◌≡◌, refl, sym, ap, ◌∙◌, ◌⊎◌, inl, inr, Bool, true, false, ◌||◌, String, Option,
  none, some, length, arith, Option-cases,
}
use uclip_daemon.Base.Result.{Result, done, fail, ◌>>=◌}
use uclip_daemon.HashMap.Laws.{is_some}
use uclip_daemon.Text.{Chars}
use uclip_daemon.Config.{max_mimes_per_selection}
use uclip_daemon.Error.{no_seat, no_manager}
use uclip_daemon.App.{AppState, new, Proxy, request, get_data_device, set_device}
use uclip_daemon.App.Dispatch.{dispatch_all}
use uclip_daemon.App.Steady.{announced, IsSteady, IsSteady-trans, dispatch_all-IsSteady}
use uclip_daemon.App.Ownership.{IsOwned, IsOwned-same, IsOwned-request}
use uclip_daemon.App.Handlers.{dispatch_all-IsOwned}
use uclip_daemon.App.Session.{new-IsOwned}
use uclip_daemon.EventLoop.Startup.{
  StartError, connect_failed, roundtrip_failed, refused, Connection, connect, after_events,
  roundtrip, setup_device, setup_connection,
}

-- A seat, or another interface, was announced in one of the two roundtrips.
abbrev pub was_announced : String → Connection → Bool
was_announced i c = announced i c.first.events || announced i c.second.events

abbrev or_first : {A : Type 0} → Option A → Option A → Option A
or_first none y = y
or_first (some x) y = some x

abbrev unless : Bool → StartError → Option StartError
unless true e = none
unless false e = some e

abbrev failed_with : (Chars → StartError) → Option Chars → Option StartError
failed_with f none = none
failed_with f (some e) = some (f e)

-- The first obstacle, in the order of the source's checks.
unfoldable pub setup_error : Connection → Option StartError
setup_error c = or_first (failed_with connect_failed c.connect_fails) (
    or_first (failed_with roundtrip_failed c.first.fails) (
      or_first (failed_with roundtrip_failed c.second.fails) (
        or_first (unless (was_announced "wl_seat" c) (refused no_seat))
          (unless (was_announced "ext_data_control_manager_v1" c) (refused no_manager)))))

-- The state has a device, a seat and a manager, no entry, no source that leaked, and only the reads
-- of the roundtrips.
pub record IsReady (c : Connection) (s : AppState) : Type 0 where
  pub with_device : s.device ≡ some c.device
  pub owns : IsOwned s
  pub with_seat : is_some s.seat ≡ true
  pub with_manager : is_some s.manager ≡ true
  pub no_history : s.clipboard ≡ new.clipboard
  pub few_reads :
      length s.pending_reads
      ≤ max_mimes_per_selection * (length c.first.events + length c.second.events)

-- The result is the verdict: a failure with its error, or a state that is ready.
abbrev pub IsDecided : Connection → Result StartError AppState → Option StartError → Type 0
IsDecided c r verdict =
    ((s : AppState) × (r ≡ done s) × (verdict ≡ none) × IsReady c s)
    ⊎ ((e : StartError) × (r ≡ fail e) × (verdict ≡ some e))

setup_device_cases :
    (s : AppState) (device : Proxy)
    → ((s.seat ≡ none) × (setup_device s device ≡ fail (refused no_seat)))
      ⊎ ((seat : Proxy) × (s.seat ≡ some seat)
          × (s.manager ≡ none)
          × (setup_device s device ≡ fail (refused no_manager)))
      ⊎ ((seat : Proxy) × (manager : Proxy) × (s.seat ≡ some seat)
          × (s.manager ≡ some manager)
          × (setup_device s device
              ≡ done (set_device (request s (get_data_device manager seat)) device)))
unfolding setup_device
setup_device_cases s device = elim (Option-cases s.seat) [
  | inl w ↦ inl (w, ground arith)
  | inr (seat, w) ↦ elim (Option-cases s.manager) [
    | inl m ↦ inr (inl (seat, w, m, ground arith))
    | inr (manager, m) ↦ inr (inr (seat, manager, w, m, ground arith))
  ]
]

module _ (c : Connection) where
  abbrev dispatched_twice : AppState
  dispatched_twice = dispatch_all c.order (dispatch_all c.order new c.first.events) c.second.events

  steady :
      IsSteady
        (max_mimes_per_selection * length c.first.events
          + max_mimes_per_selection * length c.second.events)
        (was_announced "wl_seat" c)
        (was_announced "ext_data_control_manager_v1" c)
        new
        dispatched_twice
  steady =
      IsSteady-trans (dispatch_all-IsSteady c.order new c.first.events)
        (dispatch_all-IsSteady c.order _ c.second.events)

  seat_there : is_some dispatched_twice.seat ≡ was_announced "wl_seat" c
  seat_there = steady.seat_kept

  manager_there : is_some dispatched_twice.manager ≡ was_announced "ext_data_control_manager_v1" c
  manager_there = steady.manager_kept

  ready :
      (seat manager : Proxy)
      → dispatched_twice.seat ≡ some seat
      → dispatched_twice.manager ≡ some manager
      → IsReady c (set_device (request dispatched_twice (get_data_device manager seat)) c.device)
  unfolding set_device
  ready seat manager w m = record {
    with_device = refl;
    owns = IsOwned-same _ _ refl refl (
        IsOwned-request dispatched_twice (request dispatched_twice (get_data_device manager seat))
          (get_data_device manager seat) (λ p. (refl, refl)) refl refl
          (dispatch_all-IsOwned c.order _ c.second.events
            (dispatch_all-IsOwned c.order new c.first.events new-IsOwned)));
    with_seat = ap is_some w;
    with_manager = ap is_some m;
    no_history = steady.same_history;
    few_reads = omega (arith, steady.few_reads);
  }

  abbrev verdict : Option StartError
  verdict =
      or_first (unless (was_announced "wl_seat" c) (refused no_seat))
        (unless (was_announced "ext_data_control_manager_v1" c) (refused no_manager))

  verdict-there :
      (a b : Bool)
      → is_some dispatched_twice.seat ≡ a
      → is_some dispatched_twice.manager ≡ b
      → verdict ≡ or_first (unless a (refused no_seat)) (unless b (refused no_manager))
  verdict-there a b h k =
      ap
        (λ (x : Bool).
          or_first (unless x (refused no_seat))
            (unless (was_announced "ext_data_control_manager_v1" c) (refused no_manager)))
        (sym seat_there ∙ h)
      ∙ ap (λ (y : Bool). or_first (unless a (refused no_seat)) (unless y (refused no_manager)))
          (sym manager_there ∙ k)

  devices_decide : IsDecided c (setup_device dispatched_twice c.device) verdict
  devices_decide = elim (setup_device_cases dispatched_twice c.device) [
    | inl (w, e) ↦ inr (refused no_seat, e, verdict-there false _ (ap is_some w) refl)
    | inr (inl (seat, w, m, e)) ↦
        inr (refused no_manager, e, verdict-there true false (ap is_some w) (ap is_some m))
    | inr (inr (seat, manager, w, m, e)) ↦
        inl (_, e, verdict-there true true (ap is_some w) (ap is_some m), ready seat manager w m)
  ]

  decided :
      (x y z : Option Chars)
      → IsDecided c
          (do
            let s = (← connect x)
            let s' = (← after_events (dispatch_all c.order s c.first.events) y)
            let s'' = (← after_events (dispatch_all c.order s' c.second.events) z)
            setup_device s'' c.device)
          (or_first (failed_with connect_failed x) (
            or_first
              (failed_with roundtrip_failed y)
              (or_first (failed_with roundtrip_failed z) verdict)))
  unfolding connect after_events
  decided (some e) y z = inr (connect_failed e, refl, refl)
  decided none (some e) z = inr (roundtrip_failed e, refl, refl)
  decided none none (some e) = inr (roundtrip_failed e, refl, refl)
  decided none none none = devices_decide

  -- The start of the connection fails with the first obstacle, in this order: no connection, a
  -- failed roundtrip, no announced seat, no announced manager. Without an obstacle it succeeds, with
  -- the device, a seat, a manager, an empty history, and only the reads of the two roundtrips.
  pub setup_connection_lem : IsDecided c (setup_connection c) (setup_error c)
  unfolding setup_connection setup_error roundtrip
  setup_connection_lem = decided c.connect_fails c.first.fails c.second.fails
