-- ===== src/App/Dispatch.antt =====
-- src/clipboard/wayland: what each event of the compositor does.
use uclip_daemon.Base.{
  ℕ, min, String, List, [], ◌∷◌, Bool, false, not, Option, none, some, if◌then◌else◌,
}
use uclip_daemon.Base.Eq.{string_eq, ◌==◌}
use uclip_daemon.Text.{Chars, Bytes}
use uclip_daemon.Mime.{pick_mimes}
use uclip_daemon.History.Content.{BlobOrder}
use uclip_daemon.App.{
  AppState, Proxy, bind_seat, bind_manager, receive, destroy_source, ReadEnd, SourceData,
  same_proxy, request, set_seat, set_manager, clear_device, take_source_if_active, offer_mimes,
  insert_offer, push_offer_mime, set_selection, clear_selection, push_pending_read, content_for,
}

-- registry.rs
pub data RegistryEvent : Type 0 where
  global : ℕ → String → ℕ → RegistryEvent
  global_remove : ℕ → RegistryEvent

-- `bound` is the proxy that `registry.bind` returns.
unfoldable pub dispatch_registry : Proxy → AppState → RegistryEvent → AppState
dispatch_registry bound s (global name interface version) =
    if interface == "wl_seat"
    then set_seat (request s (bind_seat name (min version 9))) bound
    else if interface == "ext_data_control_manager_v1"
    then set_manager (request s (bind_manager name (min version 1))) bound
    else s
dispatch_registry bound s (global_remove name) = s

-- offer.rs
unfoldable pub dispatch_offer : AppState → Proxy → String → AppState
dispatch_offer s offer mime_type = push_offer_mime s offer.protocol_id mime_type

-- source.rs
pub data SourceEvent : Type 0 where
  send : String → SourceEvent
  cancelled : SourceEvent

unfoldable pub destroy_taken : AppState × Option Proxy → AppState
destroy_taken (s, none) = s
destroy_taken (s, some old) = request s (destroy_source old)

-- The new state, and the bytes that are written to the requesting client.
unfoldable pub dispatch_source :
    BlobOrder → AppState → Proxy → SourceData → SourceEvent → AppState × Option Bytes
dispatch_source it s source data' (send mime_type) = (s, content_for it data' mime_type)
dispatch_source it s source data' cancelled = (destroy_taken (take_source_if_active s source), none)

-- device.rs
pub data DeviceEvent : Type 0 where
  data_offer : Proxy → DeviceEvent
  selection : Option Proxy → DeviceEvent
  finished : DeviceEvent
  primary_selection : Option Proxy → DeviceEvent

-- What the system answers when a pipe is made and the connection flushed.
pub data PipeAnswer : Type 0 where
  pipe_failed : Chars → PipeAnswer
  flush_failed : Chars → PipeAnswer
  piped : ReadEnd → PipeAnswer

unfoldable pub request_mime : PipeAnswer → AppState → Proxy → String → AppState
request_mime (pipe_failed e) s offer mime = s
request_mime (flush_failed e) s offer mime = request s (receive offer mime)
request_mime (piped fd) s offer mime =
    push_pending_read (request s (receive offer mime))
      (record { fd = fd; mime_type = mime; offer_id = offer.protocol_id })

unfoldable pub request_all : (String → PipeAnswer) → AppState → Proxy → List String → AppState
request_all pipes s offer [] = s
request_all pipes s offer (mime ∷ mimes) =
    request_all pipes (request_mime (pipes mime) s offer mime) offer mimes

abbrev pub other_than : Option Proxy → Proxy → Bool
other_than none offer = false
other_than (some old) offer = not (same_proxy old offer)

-- The previous selection is destroyed if it is another object.
unfoldable pub change_selection : AppState → Proxy → AppState
change_selection s offer =
    set_selection (if other_than s.current_selection offer then clear_selection s else s) offer

unfoldable pub request_offered :
    (String → PipeAnswer) → AppState → Proxy → Option (List String) → AppState
request_offered pipes s offer none = s
request_offered pipes s offer (some mimes) = request_all pipes s offer (pick_mimes mimes)

unfoldable pub dispatch_device : (String → PipeAnswer) → AppState → DeviceEvent → AppState
dispatch_device pipes s (data_offer offer) = insert_offer s offer.protocol_id
dispatch_device pipes s (selection none) = clear_selection s
dispatch_device pipes s (selection (some offer)) =
    let changed = change_selection s offer in
    request_offered pipes changed offer (offer_mimes changed offer.protocol_id)
dispatch_device pipes s finished = clear_selection (clear_device s)
dispatch_device pipes s (primary_selection offer) = s

-- What the event queue hands to the handlers: the object, the event, and what the connection and
-- the system answer to the handler.
pub data WaylandEvent : Type 0 where
  registry_event : Proxy → RegistryEvent → WaylandEvent
  offer_event : Proxy → String → WaylandEvent
  source_event : Proxy → SourceData → SourceEvent → WaylandEvent
  device_event : (String → PipeAnswer) → DeviceEvent → WaylandEvent

unfoldable pub dispatch_event : BlobOrder → AppState → WaylandEvent → AppState
dispatch_event it s (registry_event bound e) = dispatch_registry bound s e
dispatch_event it s (offer_event offer mime_type) = dispatch_offer s offer mime_type
dispatch_event it s (source_event source data' e) = (dispatch_source it s source data' e).0
dispatch_event it s (device_event pipes e) = dispatch_device pipes s e

-- The queue calls the handlers one after another.
unfoldable pub dispatch_all : BlobOrder → AppState → List WaylandEvent → AppState
dispatch_all it s [] = s
dispatch_all it s (e ∷ es) = dispatch_all it (dispatch_event it s e) es
