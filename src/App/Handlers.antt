-- ===== src/App/Handlers.antt =====
-- src/clipboard/wayland: the handlers, and the balance of the sources.
use uclip_daemon.Base.{
  min, ◌≡◌, refl, ap, ◌⊎◌, inl, inr, String, List, [], ◌∷◌, ◌++◌, Option, none, some, arith,
  Bool-cases, Option-cases,
}
use uclip_daemon.Mime.{pick_mimes}
use uclip_daemon.History.Content.{BlobOrder}
use uclip_daemon.App.{
  AppState, Proxy, bind_seat, bind_manager, destroy_offer, receive, destroy_source, same_proxy,
  set_seat, set_manager, clear_device, take_source_if_active, insert_offer, push_offer_mime,
  set_selection, clear_selection, push_pending_read, SourceData,
}
use uclip_daemon.App.Dispatch.{
  WaylandEvent, registry_event, offer_event, source_event, device_event, dispatch_event,
  dispatch_all, RegistryEvent, global, global_remove, dispatch_registry, dispatch_offer,
  SourceEvent, send, cancelled, destroy_taken, dispatch_source, DeviceEvent, data_offer, selection,
  finished, primary_selection, PipeAnswer, pipe_failed, flush_failed, piped, request_mime,
  request_all, other_than, change_selection, request_offered, dispatch_device,
}
use uclip_daemon.Base.Eq.{nat_eq}
use uclip_daemon.Base.Eq.{string_eq, ◌==◌}
use uclip_daemon.App.Ownership.{
  created, destroyed_count, owned, IsOwned, created-append, destroyed-append, IsOwned-request,
  IsOwned-same,
}

pub cancelled_cases :
    (it : BlobOrder) (s : AppState) (source : Proxy) (d : SourceData)
    → ((dispatch_source it s source d cancelled).0 ≡ s)
      ⊎ ((q : Proxy) × (s.current_source ≡ some q)
          × ((dispatch_source it s source d cancelled).0
              ≡ record s { current_source = none; requests = s.requests ++ destroy_source q ∷ [] }))
unfolding dispatch_source take_source_if_active destroy_taken
cancelled_cases it s source d = elim (Option-cases s.current_source) [
  | inl e ↦ inl (ground arith)
  | inr (q, e) ↦ elim (Bool-cases (same_proxy q source)) [
    | inl active ↦ inr (q, e, ground arith)
    | inr stale ↦ inl (ground arith)
  ]
]

dispatch_source-IsOwned :
    (it : BlobOrder) (s : AppState) (source : Proxy) (d : SourceData) (e : SourceEvent)
    → IsOwned s
    → IsOwned (dispatch_source it s source d e).0
unfolding created destroyed_count
dispatch_source-IsOwned it s source d (send m) h = unfold dispatch_source in h
dispatch_source-IsOwned it s source d cancelled h = elim (cancelled_cases it s source d) [
  | inl same ↦ rw same h
  | inr (q, current, done) ↦ rw done (record {
    balance = λ p. omega (
      arith,
      created-append p s.requests (destroy_source q ∷ []),
      destroyed-append p s.requests (destroy_source q ∷ []),
      h.balance p,
      ap (owned p) current,
    );
  })
]

dispatch_registry-IsOwned :
    (bound : Proxy) (s : AppState) (e : RegistryEvent)
    → IsOwned s
    → IsOwned (dispatch_registry bound s e)
unfolding dispatch_registry set_seat set_manager
dispatch_registry-IsOwned bound s (global name interface version) h =
    elim (Bool-cases (interface == "wl_seat")) [
      | inl e ↦
          IsOwned-request s _ (bind_seat name (min version 9)) (λ p. (refl, refl)) (ground arith)
            (ground arith) h
      | inr e ↦ elim (Bool-cases (interface == "ext_data_control_manager_v1")) [
        | inl f ↦
            IsOwned-request s _ (bind_manager name (min version 1)) (λ p. (refl, refl))
              (ground arith) (ground arith) h
        | inr f ↦ IsOwned-same s _ (ground arith) (ground arith) h
      ]
    ]
dispatch_registry-IsOwned bound s (global_remove name) h = h

clear_selection-IsOwned : (s : AppState) → IsOwned s → IsOwned (clear_selection s)
unfolding clear_selection
clear_selection-IsOwned s h = elim (Option-cases s.current_selection) [
  | inl e ↦ IsOwned-same s _ (ground arith) (ground arith) h
  | inr (old, e) ↦
      IsOwned-request s _ (destroy_offer old) (λ p. (refl, refl)) (ground arith) (ground arith) h
]

change_selection-IsOwned :
    (s : AppState) (offer : Proxy) → IsOwned s → IsOwned (change_selection s offer)
unfolding change_selection set_selection
change_selection-IsOwned s offer h = elim (Bool-cases (other_than s.current_selection offer)) [
  | inl e ↦
      IsOwned-same (clear_selection s) _ (ground arith) (ground arith) (clear_selection-IsOwned s h)
  | inr e ↦ IsOwned-same s _ (ground arith) (ground arith) h
]

request_mime-IsOwned :
    (a : PipeAnswer) (s : AppState) (offer : Proxy) (mime : String)
    → IsOwned s
    → IsOwned (request_mime a s offer mime)
unfolding request_mime push_pending_read
request_mime-IsOwned (pipe_failed e) s offer mime h = h
request_mime-IsOwned (flush_failed e) s offer mime h =
    IsOwned-request s _ (receive offer mime) (λ p. (refl, refl)) refl refl h
request_mime-IsOwned (piped fd) s offer mime h =
    IsOwned-request s _ (receive offer mime) (λ p. (refl, refl)) refl refl h

request_all-IsOwned :
    (pipes : String → PipeAnswer) (s : AppState) (offer : Proxy) (mimes : List String)
    → IsOwned s
    → IsOwned (request_all pipes s offer mimes)
unfolding request_all
request_all-IsOwned pipes s offer [] h = h
request_all-IsOwned pipes s offer (m ∷ mimes) h =
    request_all-IsOwned pipes (request_mime (pipes m) s offer m) offer mimes
      (request_mime-IsOwned (pipes m) s offer m h)

request_offered-IsOwned :
    (pipes : String → PipeAnswer) (s : AppState) (offer : Proxy) (o : Option (List String))
    → IsOwned s
    → IsOwned (request_offered pipes s offer o)
unfolding request_offered
request_offered-IsOwned pipes s offer none h = h
request_offered-IsOwned pipes s offer (some mimes) h =
    request_all-IsOwned pipes s offer (pick_mimes mimes) h

dispatch_device-IsOwned :
    (pipes : String → PipeAnswer) (s : AppState) (e : DeviceEvent)
    → IsOwned s
    → IsOwned (dispatch_device pipes s e)
unfolding dispatch_device insert_offer clear_device
dispatch_device-IsOwned pipes s (data_offer offer) h = IsOwned-same s _ refl refl h
dispatch_device-IsOwned pipes s (selection none) h = clear_selection-IsOwned s h
dispatch_device-IsOwned pipes s (selection (some offer)) h =
    request_offered-IsOwned pipes (change_selection s offer) offer _
      (change_selection-IsOwned s offer h)
dispatch_device-IsOwned pipes s finished h =
    clear_selection-IsOwned _ (IsOwned-same s _ refl refl h)
dispatch_device-IsOwned pipes s (primary_selection o) h = h

dispatch_offer-IsOwned :
    (s : AppState) (offer : Proxy) (mime : String)
    → IsOwned s
    → IsOwned (dispatch_offer s offer mime)
unfolding dispatch_offer push_offer_mime
dispatch_offer-IsOwned s offer mime h = IsOwned-same s _ refl refl h

pub dispatch_event-IsOwned :
    (it : BlobOrder) (s : AppState) (e : WaylandEvent) → IsOwned s → IsOwned (dispatch_event it s e)
unfolding dispatch_event
dispatch_event-IsOwned it s (registry_event bound e) h = dispatch_registry-IsOwned bound s e h
dispatch_event-IsOwned it s (offer_event offer mime) h = dispatch_offer-IsOwned s offer mime h
dispatch_event-IsOwned it s (source_event source d e) h = dispatch_source-IsOwned it s source d e h
dispatch_event-IsOwned it s (device_event pipes e) h = dispatch_device-IsOwned pipes s e h

pub dispatch_all-IsOwned :
    (it : BlobOrder) (s : AppState) (es : List WaylandEvent)
    → IsOwned s
    → IsOwned (dispatch_all it s es)
unfolding dispatch_all
dispatch_all-IsOwned it s [] h = h
dispatch_all-IsOwned it s (e ∷ es) h =
    dispatch_all-IsOwned it (dispatch_event it s e) es (dispatch_event-IsOwned it s e h)
