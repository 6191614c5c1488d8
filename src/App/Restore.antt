-- ===== src/App/Restore.antt =====
-- src/clipboard/state.rs: the outcomes and the requests of `restore_entry`, and what the restored
-- source serves.
use uclip_daemon.Base.{
  ℕ, ◌≡◌, refl, sym, ap, ◌∙◌, ◌⊎◌, inl, inr, String, List, [], ◌∷◌, ◌++◌, append_assoc, append-nil,
  map, ◌&&◌, Option, none, some, arith, Option-cases, if◌then◌else◌,
}
use uclip_daemon.Base.Eq.{string_eq, contains}
use uclip_daemon.HashMap.{get, or_insert, keys, IsMap}
use uclip_daemon.HashMap.Laws.{is_some, get-or_insert}
use uclip_daemon.Text.{Bytes}
use uclip_daemon.Config.{text_aliases}
use uclip_daemon.Error.{ClipboardError, no_manager, no_device, entry_not_found}
use uclip_daemon.History.Content.{Blobs, BlobOrder, ClipboardContent, from_blobs}
use uclip_daemon.History.Content.Views.{representations, has_text}
use uclip_daemon.History.Content.Classified.{nonempty}
use uclip_daemon.History.Content.Kept.{get-representations}
use uclip_daemon.History.State.{ClipboardEntry, get_entry}
use uclip_daemon.App.{
  AppState, Proxy, Request, create_source, offer_mime, set_device_selection, destroy_source,
  RestoreResult, ok, err, content_for, fallback, add_aliases, restored_contents, destroy_previous,
  replace_source, publish, restore_found, restore_entry,
}

abbrev pub destroyed : Option Proxy → List Request
destroyed none = []
destroyed (some old) = destroy_source old ∷ []

-- A restore that fails changes nothing, and the error says what is missing: the entry, the
-- manager, or the device.
pub restore_entry_error :
    (it : BlobOrder) (s : AppState) (source : Proxy) (id : ℕ) (e : ClipboardError)
    → (restore_entry it s source id).1 ≡ err e
    → ((restore_entry it s source id).0 ≡ s)
      × (((get_entry s.clipboard id ≡ none) × (e ≡ entry_not_found id))
          ⊎ ((s.manager ≡ none) × (e ≡ no_manager))
          ⊎ ((s.device ≡ none) × (e ≡ no_device)))
unfolding restore_entry restore_found
restore_entry_error it s source id e h = ground arith

destroy_previous_lem :
    (s : AppState) (o : Option Proxy)
    → destroy_previous (s, o) ≡ record s { requests = s.requests ++ destroyed o }
unfolding destroy_previous
destroy_previous_lem s none =
    ap (λ (l : List Request). record s { requests = l }) (sym (append-nil s.requests))
destroy_previous_lem s (some old) = refl

abbrev pub restore_requests : BlobOrder → AppState → Proxy → Proxy → Blobs → List Request
restore_requests it s device source contents =
    create_source source contents
    ∷ (map (offer_mime source) (keys (it.order contents))
        ++ set_device_selection device source ∷ destroyed s.current_source)

publish_lem :
    (it : BlobOrder) (s : AppState) (device source : Proxy) (contents : Blobs)
    → publish it s device source contents ≡ record s {
      current_source = some source;
      requests = s.requests ++ restore_requests it s device source contents;
    }
unfolding publish replace_source
publish_lem it s device source contents =
    destroy_previous_lem _ s.current_source
    ∙ ap (λ (l : List Request). record s { current_source = some source; requests = l })
        (simp append_assoc)

restore_entry_found :
    (it : BlobOrder) (s : AppState) (source : Proxy) (id : ℕ) (entry : ClipboardEntry)
    → get_entry s.clipboard id ≡ some entry
    → restore_entry it s source id ≡ restore_found it s source entry
unfolding restore_entry
restore_entry_found it s source id entry h = rw (h, restore_entry)

restore_found_cases :
    (it : BlobOrder) (s : AppState) (source : Proxy) (entry : ClipboardEntry)
    → ((restore_found it s source entry).0 ≡ s)
      ⊎ ((device : Proxy) × ((restore_found it s source entry).0
            ≡ publish it s device source (restored_contents it entry.content)))
unfolding restore_found
restore_found_cases it s source entry = elim (Option-cases s.manager) [
  | inl m ↦ inl (ground arith)
  | inr (manager, m) ↦ elim (Option-cases s.device) [
    | inl d ↦ inl (ground arith)
    | inr (device, d) ↦ inr (device, ground arith)
  ]
]

-- The two ways in which a restore leaves the state.
pub restore_entry_cases :
    (it : BlobOrder) (s : AppState) (source : Proxy) (id : ℕ)
    → ((restore_entry it s source id).0 ≡ s)
      ⊎ ((device : Proxy) × (contents : Blobs) × ((restore_entry it s source id).0 ≡ record s {
        current_source = some source;
        requests = s.requests ++ restore_requests it s device source contents;
      }))
restore_entry_cases it s source id = elim (Option-cases (get_entry s.clipboard id)) [
  | inl e ↦ inl (unfold restore_entry in rw (e, restore_entry) refl)
  | inr (entry, e) ↦ elim (restore_found_cases it s source entry) [
    | inl same ↦ inl (
        ap (λ (r : AppState × RestoreResult). r.0) (restore_entry_found it s source id entry e)
        ∙ same)
    | inr (device, done) ↦ inr (
      device,
      restored_contents it entry.content,
      ap (λ (r : AppState × RestoreResult). r.0) (restore_entry_found it s source id entry e)
          ∙ done
          ∙ publish_lem it s device source (restored_contents it entry.content),
    )
  ]
]

restore_found_ok :
    (it : BlobOrder) (s : AppState) (source : Proxy) (entry : ClipboardEntry)
    (manager device : Proxy)
    → s.manager ≡ some manager
    → s.device ≡ some device
    → restore_found it s source entry
      ≡ (publish it s device source (restored_contents it entry.content), ok)
unfolding restore_found
restore_found_ok it s source entry manager device m d = ground arith

-- A restore of an entry that is there, with a manager and a device, succeeds. It creates a source
-- with the entry's contents, offers each type, sets the selection, and only then destroys the
-- source that it replaces; nothing else of the state changes.
pub restore_entry_ok :
    (it : BlobOrder) (s : AppState) (source : Proxy) (id : ℕ) (entry : ClipboardEntry)
    (manager device : Proxy)
    → get_entry s.clipboard id ≡ some entry
    → s.manager ≡ some manager
    → s.device ≡ some device
    → restore_entry it s source id ≡ (
      record s {
        current_source = some source;
        requests =
            s.requests ++ restore_requests it s device source (restored_contents it entry.content);
      },
      ok,
    )
restore_entry_ok it s source id entry manager device found m d =
    restore_entry_found it s source id entry found
    ∙ restore_found_ok it s source entry manager device m d
    ∙ (ap (λ (t : AppState). (t, ok)) (publish_lem it s device source _))

get-add_aliases :
    (bytes : Bytes) (aliases : List String) (m : Blobs) (k : String)
    → get (add_aliases bytes aliases m) k
      ≡ (if is_some (get m k) then get m k else if contains aliases k then some bytes else none)
unfolding add_aliases
get-add_aliases bytes [] m k = ground arith
get-add_aliases bytes (a ∷ aliases) m k = ground (
  arith,
  get-add_aliases bytes aliases (or_insert a bytes m) k,
  get-or_insert a k bytes m,
  string_eq.beq_iff a k,
)

-- The restored source serves every stored type as it is stored, and, if the entry has text, each
-- missing text alias with the fallback payload; it serves no other type by name.
pub get-restored_contents :
    (it : BlobOrder) (c : ClipboardContent) (k : String)
    → get (restored_contents it c) k ≡ (
        if is_some (get (representations c) k)
        then get (representations c) k
        else if has_text c && contains text_aliases k
        then some (fallback it (representations c))
        else none)
unfolding restored_contents has_text
get-restored_contents it c k = restored text_aliases
  where
    restored :
        (aliases : List String)
        → get
            (if has_text c
              then add_aliases (fallback it (representations c)) aliases (representations c)
              else representations c)
            k
          ≡ (if is_some (get (representations c) k)
              then get (representations c) k
              else if has_text c && contains aliases k
              then some (fallback it (representations c))
              else none)
    restored aliases =
        ground
          (arith, get-add_aliases (fallback it (representations c)) aliases (representations c) k)

-- Copy and paste: whatever was read of a copy, under whatever iteration orders, a client that
-- asks the restored source for that type is sent the very bytes that were read.
pub content_for-restored :
    (read offered served : BlobOrder) (blobs : Blobs) (c : ClipboardContent) (k : String)
    (b : Bytes)
    → IsMap blobs
    → from_blobs read blobs ≡ some c
    → nonempty (get blobs k) ≡ some b
    → content_for served (record { contents = restored_contents offered c }) k ≡ some b
unfolding content_for
content_for-restored read offered served blobs c k b valid made held =
    let stored : get (representations c) k ≡ some b =
      get-representations read blobs valid c made k ∙ held in
    let kept : get (restored_contents offered c) k ≡ some b =
      get-restored_contents offered c k ∙ rw stored refl in
    rw kept
