-- ===== src/App/Selection.antt =====
-- src/clipboard/wayland/device.rs, clipboard/state.rs: the offers that are destroyed, against the
-- announcements of the selection.
pub mod Device
pub mod Events
use uclip_daemon.Base.{
  ℕ, ◌≡◌, ◌∙◌, refl, sym, ap, inl, inr, String, List, [], ◌∷◌, ◌++◌, map, Bool, true, false, not,
  Option, none, some, arith, Bool-cases, Option-cases, if◌then◌else◌, append_assoc, append-nil,
}
use uclip_daemon.Base.Eq.{string_eq, nat_eq, ◌==◌}
use uclip_daemon.HashMap.{keys}
use uclip_daemon.Mime.{pick_mimes}
use uclip_daemon.History.Content.{Blobs, BlobOrder}
use uclip_daemon.History.State
use uclip_daemon.App.{
  AppState, Proxy, Request, destroy_offer, offer_mime, set_device_selection, receive,
  destroy_source, bind_seat, bind_manager, same_proxy, restore_entry, new, set_device, set_seat,
  set_manager, clear_device, insert_offer, push_offer_mime, set_selection, clear_selection,
  push_pending_read, take_source_if_active, SourceData,
}
use uclip_daemon.App.Restore.{restore_requests, destroyed, restore_entry_cases}
use uclip_daemon.App.Dispatch.{
  WaylandEvent, registry_event, offer_event, source_event, device_event, dispatch_event,
  RegistryEvent, global, global_remove, dispatch_registry, dispatch_offer, SourceEvent, send,
  cancelled, dispatch_source, DeviceEvent, data_offer, selection, finished, primary_selection,
  PipeAnswer, pipe_failed, flush_failed, piped, request_mime, request_all, other_than,
  change_selection, request_offered, dispatch_device,
}
use uclip_daemon.App.Handlers.{cancelled_cases}
use uclip_daemon.App.Session.{
  AppEvent, wayland_event, device_made, reads_drained, echo_removed, restore_asked, on_event,
  on_events,
}
use uclip_daemon.Io.{drain_pending_reads}
use uclip_daemon.Io.Keeps.{drain_pending_reads-Keeps}

abbrev offer_of : Request → List Proxy
offer_of (destroy_offer p) = p ∷ []
offer_of _ = []

-- The offers that some requests destroy, in order.
unfoldable pub destroyed_offers : List Request → List Proxy
destroyed_offers [] = []
destroyed_offers (r ∷ rs) = offer_of r ++ destroyed_offers rs

-- What an event says the selection is.
unfoldable pub announced : AppEvent → List (Option Proxy)
announced (wayland_event (device_event pipes (selection o))) = o ∷ []
announced (wayland_event (device_event pipes finished)) = none ∷ []
announced _ = []

unfoldable pub all_announced : List AppEvent → List (Option Proxy)
all_announced [] = []
all_announced (e ∷ es) = announced e ++ all_announced es

-- Whether another offer, or none, follows `old`.
abbrev differs : Proxy → Option Proxy → Bool
differs old none = true
differs old (some p) = not (same_proxy old p)

unfoldable pub given_up : Option Proxy → Option Proxy → List Proxy
given_up none next = []
given_up (some old) next = if differs old next then old ∷ [] else []

-- The offers that are followed by another announcement than their own.
unfoldable pub all_given_up : Option Proxy → List (Option Proxy) → List Proxy
all_given_up current [] = []
all_given_up current (next ∷ rest) = given_up current next ++ all_given_up next rest

unfoldable pub last_announced : Option Proxy → List (Option Proxy) → Option Proxy
last_announced current [] = current
last_announced current (next ∷ rest) = last_announced next rest

all_given_up-append :
    (current : Option Proxy) (os ps : List (Option Proxy))
    → all_given_up current (os ++ ps)
      ≡ all_given_up current os ++ all_given_up (last_announced current os) ps
unfolding all_given_up last_announced
all_given_up-append current [] ps = refl
all_given_up-append current (o ∷ os) ps =
    ap (λ xs. given_up current o ++ xs) (all_given_up-append o os ps)
    ∙ sym (append_assoc (given_up current o) (all_given_up o os) _)

last_announced-append :
    (current : Option Proxy) (os ps : List (Option Proxy))
    → last_announced current (os ++ ps) ≡ last_announced (last_announced current os) ps
unfolding last_announced
last_announced-append current [] ps = refl
last_announced-append current (o ∷ os) ps = last_announced-append o os ps

destroyed_offers-append :
    (xs ys : List Request)
    → destroyed_offers (xs ++ ys) ≡ destroyed_offers xs ++ destroyed_offers ys
unfolding destroyed_offers
destroyed_offers-append [] ys = refl
destroyed_offers-append (x ∷ xs) ys =
    ap (λ zs. offer_of x ++ zs) (destroyed_offers-append xs ys)
    ∙ sym (append_assoc (offer_of x) (destroyed_offers xs) _)

-- From `s` to `t`, announcements were followed.
pub record Follows (s t : AppState) (os : List (Option Proxy)) : Type 0 where
  pub gone :
      destroyed_offers t.requests
      ≡ destroyed_offers s.requests ++ all_given_up s.current_selection os
  pub held : t.current_selection ≡ last_announced s.current_selection os

pub Follows-request :
    (s t : AppState) (rs : List Request) (os : List (Option Proxy))
    → t.requests ≡ s.requests ++ rs
    → destroyed_offers rs ≡ all_given_up s.current_selection os
    → t.current_selection ≡ last_announced s.current_selection os
    → Follows s t os
Follows-request s t rs os made given held = record {
  gone =
      ap destroyed_offers made
      ∙ destroyed_offers-append s.requests rs
      ∙ ap (λ xs. destroyed_offers s.requests ++ xs) given;
  held = held;
}

pub Follows-same :
    (s t : AppState)
    → t.requests ≡ s.requests
    → t.current_selection ≡ s.current_selection
    → Follows s t []
unfolding destroyed_offers all_given_up last_announced
Follows-same s t made same =
    Follows-request s t [] [] (made ∙ sym (append-nil s.requests)) refl same

pub Follows-trans :
    (s t u : AppState) (os ps : List (Option Proxy))
    → Follows s t os
    → Follows t u ps
    → Follows s u (os ++ ps)
Follows-trans s t u os ps h k = record {
  gone =
      k.gone
      ∙ ap (λ xs. xs ++ all_given_up t.current_selection ps) h.gone
      ∙ append_assoc (destroyed_offers s.requests) (all_given_up s.current_selection os) _
      ∙ ap
          (λ o.
            destroyed_offers s.requests
            ++ (all_given_up s.current_selection os ++ all_given_up o ps))
          h.held
      ∙ ap (λ xs. destroyed_offers s.requests ++ xs)
          (sym (all_given_up-append s.current_selection os ps));
  held =
      k.held
      ∙ ap (λ o. last_announced o ps) h.held
      ∙ sym (last_announced-append s.current_selection os ps);
}
