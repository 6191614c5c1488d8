-- ===== src/Io/Stored.antt =====
-- src/clipboard/io.rs: draining the reads of any number of offers, and the history.
use uclip_daemon.Base.{
  ℕ, ◌+◌, ◌^◌, ◌≤◌, ◌<◌, List, [], ◌∷◌, Bool, true, false, is_empty, length, length-append, inl,
  inr, String, arith, Option-cases, if◌then◌else◌,
}
use uclip_daemon.Base.Eq.{nat_eq}
use uclip_daemon.HashMap.{HashMap, get, remove}
use uclip_daemon.Text.{Bytes}
use uclip_daemon.History.Content.{Blobs, BlobOrder, ClipboardContent, from_blobs, unwrap_or}
use uclip_daemon.History.State.{SystemTime, ClipState, push_entry, add_content, add_grouped}
use uclip_daemon.History.State.Valid.{IsValid, add_grouped-IsValid}
use uclip_daemon.App.{AppState, PendingRead, remove_offer}
use uclip_daemon.Io.{
  ReadOutcome, Drained, BoundedRead, read, failed, nothing_read, note_truncated, group_read,
  take_read, read_bounded, read_all, store_blobs, store_all, drain_pending_reads,
}

-- The history is valid, and its counter does not wrap during the next `n` copies.
record HasRoom (n : ℕ) (s : ClipState) : Type 0 where
  valid : IsValid s
  room : s.next_id + n < 2 ^ 64

next_id-add_content :
    (s : ClipState) (c : ClipboardContent) (now : SystemTime)
    → (add_content s c now).0.next_id ≤ s.next_id + 1
unfolding add_content push_entry
next_id-add_content s c now = ground arith

pub next_id-add_grouped :
    (it : BlobOrder) (s : ClipState) (blobs : Blobs) (now : SystemTime)
    → (add_grouped it s blobs now).0.next_id ≤ s.next_id + 1
unfolding add_grouped
next_id-add_grouped it s blobs now = elim (Option-cases (from_blobs it blobs)) [
  | inl e ↦ rw (e, add_grouped) (omega arith)
  | inr (c, e) ↦ rw (e, add_grouped) (next_id-add_content s c now)
]

HasRoom-if :
    (n : ℕ) (b : Bool) (x y : AppState × List ReadOutcome)
    → HasRoom n x.0.clipboard
    → HasRoom n y.0.clipboard
    → HasRoom n (if b then x else y).0.clipboard
HasRoom-if n true x y h k = h
HasRoom-if n false x y h k = k

store_all-IsValid :
    (it : BlobOrder) (now : ℕ → SystemTime) (order : List ℕ) (grouped : HashMap ℕ Blobs)
    (x : AppState × List ReadOutcome)
    → HasRoom (length order) x.0.clipboard
    → IsValid (store_all it now order grouped x).0.clipboard
unfolding store_all store_blobs remove_offer
store_all-IsValid it now [] grouped (s, outcomes) h = h.valid
store_all-IsValid it now (o ∷ order) grouped (s, outcomes) h =
    let blobs = unwrap_or (get grouped o) [] in
    store_all-IsValid it now order (remove o grouped) _ (
      HasRoom-if (length order) (is_empty blobs) (remove_offer s o, outcomes)
        (store_blobs it (now o) blobs (remove_offer s o, outcomes))
        (record { valid = h.valid; room = omega (arith, h.room) })
        (record {
          valid = add_grouped-IsValid s.clipboard h.valid it blobs (now o) (omega (arith, h.room));
          room = omega (arith, h.room, next_id-add_grouped it s.clipboard blobs (now o));
        }))

length-group_read :
    (o : ℕ) (m : String) (buf : Bytes) (d : Drained)
    → length (group_read o m buf d).order ≤ length d.order + 1
unfolding group_read
length-group_read o m buf d = ground (arith, length-append d.order (o ∷ []))

length-take_read :
    (o : ℕ) (m : String) (r : BoundedRead) (d : Drained)
    → length (take_read o m r d).order ≤ length d.order + 1
unfolding take_read note_truncated
length-take_read o m (read buf true) d = length-group_read o m buf _
length-take_read o m (read buf false) d = length-group_read o m buf d
length-take_read o m (failed e) d = omega arith

pub length-read_all :
    (reads : List PendingRead) (d : Drained)
    → length (read_all reads d).order ≤ length d.order + length reads
unfolding read_all
length-read_all [] d = omega arith
length-read_all (r ∷ reads) d = omega (
  arith,
  length-read_all reads (take_read r.offer_id r.mime_type (read_bounded r.fd) d),
  length-take_read r.offer_id r.mime_type (read_bounded r.fd) d,
)

-- Draining any reads, of however many offers, keeps a valid history valid, as long as the id counter
-- does not wrap.
pub drain_pending_reads-IsValid :
    (it : BlobOrder) (now : ℕ → SystemTime) (s : AppState)
    → IsValid s.clipboard
    → s.clipboard.next_id + length s.pending_reads < 2 ^ 64
    → IsValid (drain_pending_reads it now s).0.clipboard
unfolding drain_pending_reads
drain_pending_reads-IsValid it now s valid room = store_all-IsValid it now _ _ _ (record {
  valid = valid;
  room = omega (arith, room, length-read_all s.pending_reads nothing_read);
})
