-- ===== src/App.antt =====
-- src/clipboard/state.rs: the state of the Wayland thread, and `restore_entry`.
-- Requests to the compositor are recorded in the order in which they are made.
pub mod Restore
pub mod Dispatch
pub mod Ownership
pub mod Handlers
pub mod Session
pub mod Selection
pub mod Echoed
pub mod Steady
use uclip_daemon.Base.{
  ℕ, String, List, [], ◌∷◌, ◌++◌, map, Bool, true, false, ◌&&◌, Option, none, some, eqb,
  if◌then◌else◌,
}
use uclip_daemon.Base.Eq.{Eq, string_eq, nat_eq, ◌==◌}
use uclip_daemon.HashMap.{HashMap, Iteration, get, insert, remove, or_insert, keys, values}
use uclip_daemon.Text.{Chars, Bytes}
use uclip_daemon.Config.{text_aliases}
use uclip_daemon.Error.{ClipboardError, no_manager, no_device, entry_not_found}
use uclip_daemon.Mime.{is_text_mime}
use uclip_daemon.History.Content.{Blobs, BlobOrder, ClipboardContent, head, or_else, unwrap_or}
use uclip_daemon.History.Content.Views.{representations, has_text}
use uclip_daemon.History.State
use uclip_daemon.History.State.{ClipState, ClipboardEntry, get_entry}

-- An object of the Wayland connection: its protocol id, which may be used again, and a serial.
pub record Proxy : Type 0 where
  pub protocol_id : ℕ
  pub serial : ℕ

unfoldable pub same_proxy : Proxy → Proxy → Bool
same_proxy a b = eqb a.protocol_id b.protocol_id && eqb a.serial b.serial

abbrev pub is_proxy : Option Proxy → Proxy → Bool
is_proxy none p = false
is_proxy (some q) p = same_proxy q p

-- What the code asks of the compositor.
pub data Request : Type 0 where
  bind_seat bind_manager : ℕ → ℕ → Request
  get_data_device : Proxy → Proxy → Request
  destroy_offer : Proxy → Request
  receive : Proxy → String → Request
  create_source : Proxy → Blobs → Request
  offer_mime : Proxy → String → Request
  set_device_selection : Proxy → Proxy → Request
  destroy_source : Proxy → Request

pub record OfferData : Type 0 where
  pub mime_types : List String

unfoldable pub push_mime : OfferData → String → OfferData
push_mime o mime_type = record { mime_types = o.mime_types ++ mime_type ∷ [] }

pub record SourceData : Type 0 where
  pub contents : Blobs

-- `it` gives the order in which the map is visited.
unfoldable pub content_for : BlobOrder → SourceData → String → Option Bytes
content_for it data' mime_type =
    or_else (get data'.contents mime_type)
      (if is_text_mime mime_type then head (values (it.order data'.contents)) else none)

-- The read end of a pipe, by what reading it to the end gives.
pub data ReadEnd : Type 0 where
  delivers : Bytes → ReadEnd
  fails : Chars → ReadEnd

pub record PendingRead : Type 0 where
  pub fd : ReadEnd
  pub mime_type : String
  pub offer_id : ℕ

pub record AppState : Type 0 where
  pub seat : Option Proxy
  pub manager : Option Proxy
  pub device : Option Proxy
  pub current_source : Option Proxy
  pub offers : HashMap ℕ OfferData
  pub current_selection : Option Proxy
  pub pending_reads : List PendingRead
  pub clipboard : ClipState
  pub requests : List Request

abbrev pub new : AppState
new = record {
  seat = none;
  manager = none;
  device = none;
  current_source = none;
  offers = [];
  current_selection = none;
  pending_reads = [];
  clipboard = State.new;
  requests = [];
}

-- Makes a request.
abbrev pub request : AppState → Request → AppState
request s r = record s { requests = s.requests ++ r ∷ [] }

unfoldable pub set_seat : AppState → Proxy → AppState
set_seat s seat = record s { seat = some seat }

unfoldable pub set_manager : AppState → Proxy → AppState
set_manager s manager = record s { manager = some manager }

unfoldable pub set_device : AppState → Proxy → AppState
set_device s device = record s { device = some device }

unfoldable pub clear_device : AppState → AppState
clear_device s = record s { device = none }

unfoldable pub take_source_if_active : AppState → Proxy → AppState × Option Proxy
take_source_if_active s source =
    if is_proxy s.current_source source
    then (record s { current_source = none }, s.current_source)
    else (s, none)

unfoldable pub replace_source : AppState → Proxy → AppState × Option Proxy
replace_source s source = (record s { current_source = some source }, s.current_source)

unfoldable pub offer_mimes : AppState → ℕ → Option (List String)
offer_mimes s offer_id = elim (get s.offers offer_id) [ none ↦ none | some o ↦ some o.mime_types ]

unfoldable pub insert_offer : AppState → ℕ → AppState
insert_offer s offer_id = record s {
  offers = insert offer_id (record { mime_types = [] }) s.offers;
}

-- `entry(offer_id).or_default().push_mime(mime_type)`
unfoldable pub push_offer_mime : AppState → ℕ → String → AppState
push_offer_mime s offer_id mime_type =
    let offer = unwrap_or (get s.offers offer_id) (record { mime_types = [] }) in
    record s { offers = insert offer_id (push_mime offer mime_type) s.offers }

unfoldable pub remove_offer : AppState → ℕ → AppState
remove_offer s offer_id = record s { offers = remove offer_id s.offers }

unfoldable pub set_selection : AppState → Proxy → AppState
set_selection s offer = record s { current_selection = some offer }

unfoldable pub clear_selection : AppState → AppState
clear_selection s = elim s.current_selection [
  | none ↦ s
  | some old ↦ record s {
    current_selection = none;
    offers = remove old.protocol_id s.offers;
    requests = s.requests ++ destroy_offer old ∷ [];
  }
]

unfoldable pub push_pending_read : AppState → PendingRead → AppState
push_pending_read s read = record s { pending_reads = s.pending_reads ++ read ∷ [] }

pub data RestoreResult : Type 0 where
  ok : RestoreResult
  err : ClipboardError → RestoreResult

-- The payload for the aliases of an entry with text.
unfoldable pub fallback : BlobOrder → Blobs → Bytes
fallback it contents =
    unwrap_or
      (or_else (get contents "text/plain;charset=utf-8")
        (or_else (get contents "text/plain") (head (values (it.order contents)))))
      []

unfoldable pub add_aliases : Bytes → List String → Blobs → Blobs
add_aliases bytes [] contents = contents
add_aliases bytes (alias ∷ rest) contents = add_aliases bytes rest (or_insert alias bytes contents)

-- What a restored entry offers.
unfoldable pub restored_contents : BlobOrder → ClipboardContent → Blobs
restored_contents it content =
    let contents = representations content in
    if has_text content then add_aliases (fallback it contents) text_aliases contents else contents

unfoldable pub destroy_previous : AppState × Option Proxy → AppState
destroy_previous (s, none) = s
destroy_previous (s, some old) = request s (destroy_source old)

-- The part of `restore_entry` after its checks; `source` is the proxy that the connection creates.
unfoldable pub publish : BlobOrder → AppState → Proxy → Proxy → Blobs → AppState
publish it s device source contents =
    let created = request s (create_source source contents) in
    let offered = record created {
      requests = created.requests ++ map (offer_mime source) (keys (it.order contents));
    } in
    let selected = request offered (set_device_selection device source) in
    destroy_previous (replace_source selected source)

unfoldable pub restore_found :
    BlobOrder → AppState → Proxy → ClipboardEntry → AppState × RestoreResult
restore_found it s source entry = elim s.manager [
  | none ↦ (s, err no_manager)
  | some manager ↦ elim s.device [
    | none ↦ (s, err no_device)
    | some device ↦ (publish it s device source (restored_contents it entry.content), ok)
  ]
]

unfoldable pub restore_entry : BlobOrder → AppState → Proxy → ℕ → AppState × RestoreResult
restore_entry it s source entry_id = elim (get_entry s.clipboard entry_id) [
  | none ↦ (s, err (entry_not_found entry_id))
  | some entry ↦ restore_found it s source entry
]
