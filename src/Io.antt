-- ===== src/Io.antt =====
-- src/clipboard/io.rs: the queued pipes are read, and each copy is stored as one entry.
pub mod Bounded
pub mod Grouping
pub mod Offers
pub mod Order
pub mod Copies
pub mod Drain
pub mod Stored
pub mod Keeps
use uclip_daemon.Base.{
  ℕ, suc, ◌+◌, String, List, [], ◌∷◌, ◌++◌, Bool, true, false, not, Option, none, some, is_empty,
  take, length, ltb, if◌then◌else◌,
}
use uclip_daemon.Base.Eq.{Eq, nat_eq, string_eq}
use uclip_daemon.Base.Order.{str_leb}
use uclip_daemon.HashMap.{HashMap, get, contains_key, insert, remove, keys}
use uclip_daemon.Text.{Chars, Bytes}
use uclip_daemon.Text.Sort.{sort_by}
use uclip_daemon.Config.{max_content_bytes}
use uclip_daemon.History.Content.{Blobs, BlobOrder, head, unwrap_or}
use uclip_daemon.History.Content.Views.{primary_mime}
use uclip_daemon.History.State.{SystemTime, ClipState, ClipboardEntry, get_entry, add_grouped}
use uclip_daemon.App.{AppState, PendingRead, ReadEnd, delivers, fails, remove_offer}

pub data ReadOutcome : Type 0 where
  stored : ℕ → String → ReadOutcome
  ignored_duplicate : String → ReadOutcome
  truncated : String → ℕ → ReadOutcome
  read_error : String → Chars → ReadOutcome

pub data BoundedRead : Type 0 where
  read : Bytes → Bool → BoundedRead
  failed : Chars → BoundedRead

-- `take(limit + 1)`, `read_to_end`, and the cut to the limit.
unfoldable pub read_bounded : ReadEnd → BoundedRead
read_bounded (fails e) = failed e
read_bounded (delivers bytes) =
    let buf = take (max_content_bytes + 1) bytes in
    let over = ltb max_content_bytes (length buf) in
    read (if over then take max_content_bytes buf else buf) over

-- The local variables of the first loop.
pub record Drained : Type 0 where
  pub outcomes : List ReadOutcome
  pub order : List ℕ
  pub grouped : HashMap ℕ Blobs

abbrev pub nothing_read : Drained
nothing_read = record { outcomes = []; order = []; grouped = [] }

unfoldable pub note_truncated : Bool → String → Drained → Drained
note_truncated false mime_type d = d
note_truncated true mime_type d = record d {
  outcomes = d.outcomes ++ truncated mime_type (max_content_bytes + 1) ∷ [];
}

-- Files the payload under its offer; an empty one is skipped.
unfoldable pub group_read : ℕ → String → Bytes → Drained → Drained
group_read offer_id mime_type buf d = if is_empty buf then d else record d {
  order = if contains_key d.grouped offer_id then d.order else d.order ++ offer_id ∷ [];
  grouped =
      insert offer_id (insert mime_type buf (unwrap_or (get d.grouped offer_id) [])) d.grouped;
}

unfoldable pub take_read : ℕ → String → BoundedRead → Drained → Drained
take_read offer_id mime_type (read buf was_truncated) d =
    group_read offer_id mime_type buf (note_truncated was_truncated mime_type d)
take_read offer_id mime_type (failed e) d = record d {
  outcomes = d.outcomes ++ read_error mime_type e ∷ [];
}

-- The first loop, over the queue from its front.
unfoldable pub read_all : List PendingRead → Drained → Drained
read_all [] d = d
read_all (r ∷ reads) d = read_all reads (take_read r.offer_id r.mime_type (read_bounded r.fd) d)

-- The label of a copy that is not stored.
unfoldable pub label : Blobs → String
label blobs =
    if contains_key blobs "text/plain;charset=utf-8"
    then "text/plain;charset=utf-8"
    else if contains_key blobs "text/plain"
    then "text/plain"
    else unwrap_or (head (sort_by str_leb (keys blobs))) ""

unfoldable pub outcome_of : ClipState → String → Option ℕ → List ReadOutcome
outcome_of clipboard label' none = ignored_duplicate label' ∷ []
outcome_of clipboard label' (some id) = elim (get_entry clipboard id) [
  | none ↦ []
  | some entry ↦ stored id (primary_mime entry.content) ∷ []
]

-- One round of the second loop, for an offer with payloads.
unfoldable pub store_blobs :
    BlobOrder → SystemTime → Blobs → AppState × List ReadOutcome → AppState × List ReadOutcome
store_blobs it now blobs (s, outcomes) =
    let (clipboard, id) = add_grouped it s.clipboard blobs now in
    (record s { clipboard = clipboard }, outcomes ++ outcome_of clipboard (label blobs) id)

-- The second loop. `now` gives the time at which the copy of an offer is stored.
unfoldable pub store_all :
    BlobOrder
    → (ℕ → SystemTime)
    → List ℕ
    → HashMap ℕ Blobs
    → AppState × List ReadOutcome
    → AppState × List ReadOutcome
store_all it now [] grouped (s, outcomes) = (s, outcomes)
store_all it now (offer_id ∷ order) grouped (s, outcomes) =
    let s' = remove_offer s offer_id in
    let blobs = unwrap_or (get grouped offer_id) [] in
    let rest = remove offer_id grouped in
    store_all it now order rest (
      if is_empty blobs then (s', outcomes) else store_blobs it (now offer_id) blobs (s', outcomes))

unfoldable pub drain_pending_reads :
    BlobOrder → (ℕ → SystemTime) → AppState → AppState × List ReadOutcome
drain_pending_reads it now s =
    let drained = read_all s.pending_reads nothing_read in
    store_all it now drained.order drained.grouped
      (record s { pending_reads = [] }, drained.outcomes)
