-- ===== src/Io/Grouping.antt =====
-- src/clipboard/io.rs: the reads of one offer.
use uclip_daemon.Base.{
  ℕ, ◌+◌, ◌≡◌, refl, ap, ◌∙◌, String, List, [], ◌∷◌, ◌++◌, append-nil, append_assoc, eqb_refl, Bool,
  true, false, Option, is_empty, take, length, ltb, All, arith, if◌then◌else◌,
}
use uclip_daemon.Base.Eq.{nat_eq, string_eq}
use uclip_daemon.HashMap.{get, contains_key, insert, remove}
use uclip_daemon.Text.{Bytes}
use uclip_daemon.Config.{max_content_bytes}
use uclip_daemon.History.Content.{Blobs, BlobOrder}
use uclip_daemon.History.State.{SystemTime, ClipState, add_grouped}
use uclip_daemon.App.{AppState, PendingRead, ReadEnd, delivers, fails, remove_offer}
use uclip_daemon.Io.{
  ReadOutcome, read_error, truncated, read_bounded, Drained, nothing_read, note_truncated,
  group_read, take_read, read_all, label, outcome_of, store_blobs, store_all, drain_pending_reads,
}
use uclip_daemon.Io.Bounded.{read_bounded_lem}

-- The payloads of a copy: of each type the last read that was not empty, cut to the limit.
abbrev pub add_payload : String → ReadEnd → Blobs → Blobs
add_payload mime_type (fails e) m = m
add_payload mime_type (delivers bytes) m =
    if is_empty (take max_content_bytes bytes)
    then m
    else insert mime_type (take max_content_bytes bytes) m

unfoldable pub payloads : List PendingRead → Blobs → Blobs
payloads [] m = m
payloads (r ∷ reads) m = payloads reads (add_payload r.mime_type r.fd m)

-- The variables of the first loop while all reads are of one offer.
one_group : ℕ → Blobs → List ReadOutcome → Drained
one_group o [] outcomes = record { outcomes = outcomes; order = []; grouped = [] }
one_group o (b ∷ m) outcomes = record {
  outcomes = outcomes;
  order = o ∷ [];
  grouped = (o, b ∷ m) ∷ [];
}

group_read-one_group :
    (o : ℕ) (k : String) (v : Bytes) (m : Blobs) (outcomes : List ReadOutcome)
    → group_read o k v (one_group o m outcomes)
      ≡ one_group o (if is_empty v then m else insert k v m) outcomes
unfolding group_read one_group insert contains_key get
group_read-one_group o k [] m outcomes = refl
group_read-one_group o k (x ∷ v) [] outcomes = refl
group_read-one_group o k (x ∷ v) (b ∷ m) outcomes = ground arith

-- What the reads report: errors, and payloads that were cut.
abbrev pub read_outcomes : String → ReadEnd → List ReadOutcome
read_outcomes mime_type (fails e) = read_error mime_type e ∷ []
read_outcomes mime_type (delivers bytes) =
    if ltb max_content_bytes (length bytes)
    then truncated mime_type (max_content_bytes + 1) ∷ []
    else []

unfoldable pub all_outcomes : List PendingRead → List ReadOutcome
all_outcomes [] = []
all_outcomes (r ∷ reads) = read_outcomes r.mime_type r.fd ++ all_outcomes reads

report :
    (o : ℕ) (m : Blobs) (before after : List ReadOutcome)
    → record (one_group o m before) { outcomes = after } ≡ one_group o m after
unfolding one_group
report o [] before after = refl
report o (b ∷ m) before after = refl

outcomes-one_group :
    (o : ℕ) (m : Blobs) (outcomes : List ReadOutcome) → (one_group o m outcomes).outcomes ≡ outcomes
unfolding one_group
outcomes-one_group o [] outcomes = refl
outcomes-one_group o (b ∷ m) outcomes = refl

note-one_group :
    (o : ℕ) (k : String) (m : Blobs) (outcomes : List ReadOutcome) (cut : Bool)
    → note_truncated cut k (one_group o m outcomes)
      ≡ one_group o m (outcomes ++ (if cut then truncated k (max_content_bytes + 1) ∷ [] else []))
unfolding note_truncated
note-one_group o k m outcomes true = rw (outcomes-one_group o m outcomes) (report o m outcomes _)
note-one_group o k m outcomes false = rw (append-nil outcomes)

take_read-one_group :
    (o : ℕ) (k : String) (fd : ReadEnd) (m : Blobs) (outcomes : List ReadOutcome)
    → take_read o k (read_bounded fd) (one_group o m outcomes)
      ≡ one_group o (add_payload k fd m) (outcomes ++ read_outcomes k fd)
unfolding take_read
take_read-one_group o k (fails e) m outcomes =
    unfold read_bounded in rw (outcomes-one_group o m outcomes) (report o m outcomes _)
take_read-one_group o k (delivers bytes) m outcomes =
    rw (read_bounded_lem bytes, take_read, note-one_group o k m outcomes)
      (group_read-one_group o k (take max_content_bytes bytes) m _)

read_all-one_group :
    (o : ℕ) (reads : List PendingRead) (m : Blobs) (outcomes : List ReadOutcome)
    → All (λ (r : PendingRead). r.offer_id ≡ o) reads
    → read_all reads (one_group o m outcomes)
      ≡ one_group o (payloads reads m) (outcomes ++ all_outcomes reads)
unfolding read_all payloads all_outcomes
read_all-one_group o [] m outcomes h = rw (append-nil outcomes)
read_all-one_group o (r ∷ reads) m outcomes h =
    ap
      (λ (k : ℕ).
        read_all reads (take_read k r.mime_type (read_bounded r.fd) (one_group o m outcomes)))
      h.0
    ∙ ap (read_all reads) (take_read-one_group o r.mime_type r.fd m outcomes)
    ∙ read_all-one_group o reads (add_payload r.mime_type r.fd m) _ h.1
    ∙ ap (one_group o (payloads reads (add_payload r.mime_type r.fd m)))
        (append_assoc outcomes (read_outcomes r.mime_type r.fd) (all_outcomes reads))

read_all-nothing_read :
    (o : ℕ) (reads : List PendingRead)
    → All (λ (r : PendingRead). r.offer_id ≡ o) reads
    → read_all reads nothing_read ≡ one_group o (payloads reads []) (all_outcomes reads)
unfolding one_group
read_all-nothing_read o reads h = read_all-one_group o reads [] [] h

module _ (it : BlobOrder) (now : ℕ → SystemTime) (s : AppState) (o : ℕ) where
  abbrev kept_clipboard : Blobs → ClipState × Option ℕ
  kept_clipboard m = add_grouped it s.clipboard m (now o)

  -- What one copy does to the state and to the outcomes.
  abbrev pub after_copy : Blobs → List ReadOutcome → AppState × List ReadOutcome
  after_copy [] outcomes = (record s { pending_reads = [] }, outcomes)
  after_copy (b ∷ m) outcomes = (
    record s {
      pending_reads = [];
      offers = remove o s.offers;
      clipboard = (kept_clipboard (b ∷ m)).0;
    },
    outcomes ++ outcome_of (kept_clipboard (b ∷ m)).0 (label (b ∷ m)) (kept_clipboard (b ∷ m)).1,
  )

  store_all-one_group :
      (m : Blobs) (outcomes : List ReadOutcome)
      → store_all it now
          (one_group o m outcomes).order
          (one_group o m outcomes).grouped
          (record s { pending_reads = [] }, (one_group o m outcomes).outcomes)
        ≡ after_copy m outcomes
  unfolding one_group store_all store_blobs remove_offer get
  store_all-one_group [] outcomes = refl
  store_all-one_group (b ∷ m) outcomes = rw (eqb_refl o)

  -- If all queued reads are of one offer, draining them stores one copy, or none if every payload
  -- was empty: the payloads together, each cut to the limit. The offer's types are forgotten if a
  -- payload was read. The outcomes are the reports of the reads, and one outcome for the copy.
  pub drain_one_offer :
      All (λ (r : PendingRead). r.offer_id ≡ o) s.pending_reads
      → drain_pending_reads it now s
        ≡ after_copy (payloads s.pending_reads []) (all_outcomes s.pending_reads)
  unfolding drain_pending_reads
  drain_one_offer h =
      ap
        (λ (d : Drained).
          store_all it now d.order d.grouped (record s { pending_reads = [] }, d.outcomes))
        (read_all-nothing_read o s.pending_reads h)
      ∙ store_all-one_group (payloads s.pending_reads []) (all_outcomes s.pending_reads)
