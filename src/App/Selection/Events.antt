-- ===== src/App/Selection/Events.antt =====
-- src/clipboard/wayland, clipboard/state.rs: the offers that a session destroys.
use uclip_daemon.Base.{
  min, ℕ, ◌≡◌, ◌∙◌, refl, inl, inr, String, List, [], ◌∷◌, ◌++◌, map, Option, none, some, arith,
  Bool-cases,
}
use uclip_daemon.Base.Eq.{string_eq, nat_eq, ◌==◌}
use uclip_daemon.HashMap.{keys}
use uclip_daemon.History.Content.{BlobOrder}
use uclip_daemon.App.{
  AppState, Proxy, Request, offer_mime, destroy_source, bind_seat, bind_manager, restore_entry, new,
  set_device, set_seat, set_manager, push_offer_mime, SourceData,
}
use uclip_daemon.App.Restore.{restore_requests, destroyed, restore_entry_cases}
use uclip_daemon.App.Dispatch.{
  WaylandEvent, registry_event, offer_event, source_event, device_event, dispatch_event,
  RegistryEvent, global, global_remove, dispatch_registry, dispatch_offer, SourceEvent, send,
  cancelled, dispatch_source,
}
use uclip_daemon.App.Handlers.{cancelled_cases}
use uclip_daemon.App.Session.{
  AppEvent, wayland_event, device_made, reads_drained, echo_removed, restore_asked, on_event,
  on_events,
}
use uclip_daemon.Io.Keeps.{drain_pending_reads-Keeps}
use uclip_daemon.App.Selection.{
  Follows, Follows-request, Follows-same, Follows-trans, destroyed_offers, announced, all_announced,
  all_given_up, last_announced,
}
use uclip_daemon.App.Selection.Device.{dispatch_device-Follows}
use uclip_daemon.Io.Keeps.{current_selection-drain_pending_reads}

registry-Follows :
    (bound : Proxy) (s : AppState) (e : RegistryEvent) → Follows s (dispatch_registry bound s e) []
unfolding dispatch_registry set_seat set_manager destroyed_offers all_given_up last_announced
registry-Follows bound s (global name interface version) =
    elim (Bool-cases (interface == "wl_seat")) [
      | inl e ↦
          Follows-request s _ (bind_seat name (min version 9) ∷ []) [] (ground arith) refl
            (ground arith)
      | inr e ↦ elim (Bool-cases (interface == "ext_data_control_manager_v1")) [
        | inl f ↦
            Follows-request s _ (bind_manager name (min version 1) ∷ []) [] (ground arith) refl
              (ground arith)
        | inr f ↦ Follows-same s _ (ground arith) (ground arith)
      ]
    ]
registry-Follows bound s (global_remove name) = Follows-same s s refl refl

source-Follows :
    (it : BlobOrder) (s : AppState) (source : Proxy) (d : SourceData) (e : SourceEvent)
    → Follows s (dispatch_source it s source d e).0 []
unfolding destroyed_offers all_given_up last_announced
source-Follows it s source d (send m) = unfold dispatch_source in Follows-same s s refl refl
source-Follows it s source d cancelled = elim (cancelled_cases it s source d) [
  | inl same ↦ rw same (Follows-same s s refl refl)
  | inr (q, current, done) ↦ rw done (Follows-request s _ (destroy_source q ∷ []) [] refl refl refl)
]

event-Follows :
    (it : BlobOrder) (s : AppState) (e : WaylandEvent)
    → Follows s (dispatch_event it s e) (announced (wayland_event e))
unfolding dispatch_event dispatch_offer push_offer_mime announced
event-Follows it s (registry_event bound e) = registry-Follows bound s e
event-Follows it s (offer_event offer mime) = Follows-same s _ refl refl
event-Follows it s (source_event source d e) = source-Follows it s source d e
event-Follows it s (device_event pipes e) = dispatch_device-Follows pipes s e

offers_nothing :
    (source : Proxy) (ms : List String) (rest : List Request)
    → destroyed_offers (map (offer_mime source) ms ++ rest) ≡ destroyed_offers rest
unfolding destroyed_offers
offers_nothing source [] rest = refl
offers_nothing source (m ∷ ms) rest = offers_nothing source ms rest

destroys_nothing : (o : Option Proxy) → destroyed_offers (destroyed o) ≡ []
unfolding destroyed_offers
destroys_nothing none = refl
destroys_nothing (some q) = refl

restore-Follows :
    (it : BlobOrder) (s : AppState) (source : Proxy) (id : ℕ)
    → Follows s (restore_entry it s source id).0 []
unfolding destroyed_offers all_given_up last_announced
restore-Follows it s source id = elim (restore_entry_cases it s source id) [
  | inl same ↦ rw same (Follows-same s s refl refl)
  | inr (device, contents, done) ↦ rw done (
      Follows-request s _ (restore_requests it s device source contents) [] refl
        (offers_nothing source (keys (it.order contents)) _ ∙ destroys_nothing s.current_source)
        refl)
]

on_event-Follows :
    (it : BlobOrder) (s : AppState) (e : AppEvent) → Follows s (on_event it s e) (announced e)
unfolding on_event set_device announced
on_event-Follows it s (wayland_event e) = event-Follows it s e
on_event-Follows it s (device_made device) = Follows-same s _ refl refl
on_event-Follows it s (reads_drained now) =
    Follows-same s _ (drain_pending_reads-Keeps it now s).0
      (current_selection-drain_pending_reads it now s)
on_event-Follows it s (echo_removed id) = Follows-same s _ refl refl
on_event-Follows it s (restore_asked source id) = restore-Follows it s source id

on_events-Follows :
    (it : BlobOrder) (s : AppState) (es : List AppEvent)
    → Follows s (on_events it s es) (all_announced es)
unfolding on_events all_announced
on_events-Follows it s [] = Follows-same s s refl refl
on_events-Follows it s (e ∷ es) =
    Follows-trans s (on_event it s e) _ (announced e) (all_announced es) (on_event-Follows it s e)
      (on_events-Follows it (on_event it s e) es)

-- From the start of the program and after any events, the offers that were destroyed are, one by
-- one and in order, those that were announced as the selection and then followed by the
-- announcement of another offer or of none; the current selection is the one announced last.
pub destroyed_offers-on_events :
    (it : BlobOrder) (es : List AppEvent)
    → let s = on_events it new es in
      (destroyed_offers s.requests ≡ all_given_up none (all_announced es))
      × (s.current_selection ≡ last_announced none (all_announced es))
unfolding destroyed_offers
destroyed_offers-on_events it es = let h = on_events-Follows it new es in (h.gone, h.held)
