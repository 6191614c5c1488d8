-- ===== src/App/Selection/Device.antt =====
-- src/clipboard/wayland/device.rs: each announcement of the selection, and the offer it destroys.
use uclip_daemon.Base.{
  refl, inl, inr, String, List, [], ◌∷◌, Option, none, some, arith, Bool-cases, Option-cases,
  append-nil,
}
use uclip_daemon.Base.Eq.{string_eq, nat_eq}
use uclip_daemon.Mime.{pick_mimes}
use uclip_daemon.App.{
  AppState, Proxy, destroy_offer, receive, same_proxy, clear_device, insert_offer, set_selection,
  clear_selection, push_pending_read,
}
use uclip_daemon.App.Dispatch.{
  device_event, DeviceEvent, data_offer, selection, finished, primary_selection, PipeAnswer,
  pipe_failed, flush_failed, piped, request_mime, request_all, change_selection, request_offered,
  dispatch_device,
}
use uclip_daemon.App.Session.{wayland_event}
use uclip_daemon.App.Selection.{
  Follows, Follows-request, Follows-same, Follows-trans, destroyed_offers, announced, given_up,
  all_given_up, last_announced,
}

clear_selection-Follows : (s : AppState) → Follows s (clear_selection s) (none ∷ [])
unfolding clear_selection all_given_up last_announced given_up destroyed_offers
clear_selection-Follows s = elim (Option-cases s.current_selection) [
  | inl e ↦
      Follows-request s _ [] _ (ground (arith, append-nil s.requests)) (ground arith) (ground arith)
  | inr (old, e) ↦
      Follows-request s _ (destroy_offer old ∷ []) _ (ground arith) (ground arith) (ground arith)
]

change_selection-Follows :
    (s : AppState) (offer : Proxy) → Follows s (change_selection s offer) (some offer ∷ [])
unfolding clear_selection all_given_up last_announced given_up destroyed_offers change_selection
    set_selection
change_selection-Follows s offer = elim (Option-cases s.current_selection) [
  | inl e ↦
      Follows-request s _ [] _ (ground (arith, append-nil s.requests)) (ground arith) (ground arith)
  | inr (old, e) ↦ elim (Bool-cases (same_proxy old offer)) [
    | inl f ↦
        Follows-request s _ [] _ (ground (arith, append-nil s.requests)) (ground arith)
          (ground arith)
    | inr f ↦
        Follows-request s _ (destroy_offer old ∷ []) _ (ground arith) (ground arith) (ground arith)
  ]
]

request_mime-Follows :
    (a : PipeAnswer) (s : AppState) (offer : Proxy) (mime : String)
    → Follows s (request_mime a s offer mime) []
unfolding request_mime push_pending_read destroyed_offers all_given_up last_announced
request_mime-Follows (pipe_failed e) s offer mime = Follows-same s _ refl refl
request_mime-Follows (flush_failed e) s offer mime =
    Follows-request s _ (receive offer mime ∷ []) [] refl refl refl
request_mime-Follows (piped fd) s offer mime =
    Follows-request s _ (receive offer mime ∷ []) [] refl refl refl

request_all-Follows :
    (pipes : String → PipeAnswer) (s : AppState) (offer : Proxy) (mimes : List String)
    → Follows s (request_all pipes s offer mimes) []
unfolding request_all
request_all-Follows pipes s offer [] = Follows-same s s refl refl
request_all-Follows pipes s offer (m ∷ mimes) =
    let asked = request_mime (pipes m) s offer m in
    Follows-trans s asked _ [] [] (request_mime-Follows (pipes m) s offer m)
      (request_all-Follows pipes asked offer mimes)

request_offered-Follows :
    (pipes : String → PipeAnswer) (s : AppState) (offer : Proxy) (o : Option (List String))
    → Follows s (request_offered pipes s offer o) []
unfolding request_offered
request_offered-Follows pipes s offer none = Follows-same s s refl refl
request_offered-Follows pipes s offer (some mimes) =
    request_all-Follows pipes s offer (pick_mimes mimes)

pub dispatch_device-Follows :
    (pipes : String → PipeAnswer) (s : AppState) (e : DeviceEvent)
    → Follows s (dispatch_device pipes s e) (announced (wayland_event (device_event pipes e)))
unfolding dispatch_device insert_offer clear_device announced
dispatch_device-Follows pipes s (data_offer offer) = Follows-same s _ refl refl
dispatch_device-Follows pipes s (selection none) = clear_selection-Follows s
dispatch_device-Follows pipes s (selection (some offer)) =
    Follows-trans s (change_selection s offer) _ (some offer ∷ []) []
      (change_selection-Follows s offer)
      (request_offered-Follows pipes (change_selection s offer) offer _)
dispatch_device-Follows pipes s finished =
    let cleared = record s { device = none } in
    Follows-trans s cleared _ [] (none ∷ []) (Follows-same s cleared refl refl)
      (clear_selection-Follows cleared)
dispatch_device-Follows pipes s (primary_selection o) = Follows-same s s refl refl
