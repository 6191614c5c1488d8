-- ===== src/Io/Drain.antt =====
-- src/clipboard/io.rs: draining the reads of any offers.
use uclip_daemon.Base.{◌++◌, length, ◌≤◌, ◌<◌, ◌^◌, ◌+◌, arith}
use uclip_daemon.History.State.Valid.{IsValid}
use uclip_daemon.App.{PendingRead}
use uclip_daemon.Io.Copies.{copy_outcomes, with_copies, without_offers, store_each_lem}
use uclip_daemon.Io.Stored.{length-read_all}
use uclip_daemon.Base.{
  ℕ, ◌≡◌, refl, ap, ◌∙◌, List, [], ◌∷◌, eqb, Bool, false, Option, is_empty, All, if◌then◌else◌,
}
use uclip_daemon.Base.Eq.{nat_eq, string_eq}
use uclip_daemon.HashMap.{HashMap, get, contains_key, remove, IsMap}
use uclip_daemon.HashMap.Laws.{get-remove, remove-IsMap}
use uclip_daemon.History.Content.{Blobs, BlobOrder, unwrap_or}
use uclip_daemon.History.State.{SystemTime}
use uclip_daemon.App.{AppState}
use uclip_daemon.Io.{ReadOutcome, nothing_read, read_all, store_all, drain_pending_reads}
use uclip_daemon.Io.Grouping.{payloads, all_outcomes}
use uclip_daemon.Io.Offers.{own, offers_of, store_each, read_all-HasRead}
use uclip_daemon.Io.Order.{IsDistinct, All-imp, offers_of-IsDistinct, offers_of-IsFull}

module _ (it : BlobOrder) (now : ℕ → SystemTime) (copy : ℕ → Blobs) where
  -- The offers that are still to be stored have their payloads in the map.
  IsFiled : HashMap ℕ Blobs → ℕ → Type 0
  IsFiled grouped o = (unwrap_or (get grouped o) [] ≡ copy o) × (is_empty (copy o) ≡ false)

  still-IsFiled :
      (o : ℕ) (grouped : HashMap ℕ Blobs) (os : List ℕ)
      → IsMap grouped
      → All (λ (p : ℕ). eqb o p ≡ false) os
      → All (IsFiled grouped) os
      → All (IsFiled (remove o grouped)) os
  unfolding IsFiled
  still-IsFiled o grouped [] valid apart h = tt
  still-IsFiled o grouped (p ∷ os) valid apart h = (
    (
      ap (λ (b : Option Blobs). unwrap_or b [])
            (get-remove o p grouped valid ∙ if_false apart.0 _ _)
          ∙ h.0.0,
      h.0.1,
    ),
    still-IsFiled o grouped os valid apart.1 h.1,
  )
    where
      if_false : {A : Type 0} {b : Bool} → b ≡ false → (x y : A) → (if b then x else y) ≡ y
      if_false e x y = rw e

  store_all-store_each :
      (os : List ℕ) (grouped : HashMap ℕ Blobs) (x : AppState × List ReadOutcome)
      → IsMap grouped
      → IsDistinct os
      → All (IsFiled grouped) os
      → store_all it now os grouped x ≡ store_each it now copy os x
  unfolding store_all store_each IsFiled
  store_all-store_each [] grouped x valid apart h = refl
  store_all-store_each (o ∷ os) grouped (s, outcomes) valid apart h =
      rw (h.0.0, h.0.1)
        (store_all-store_each os (remove o grouped) _ (remove-IsMap o grouped valid) apart.1
          (still-IsFiled o grouped os valid apart.0 h.1))

drain_pending_reads-store_each :
    (it : BlobOrder) (now : ℕ → SystemTime) (s : AppState)
    → drain_pending_reads it now s
      ≡ store_each it now
          (λ o. payloads (own o s.pending_reads) [])
          (offers_of [] s.pending_reads)
          (record s { pending_reads = [] }, all_outcomes s.pending_reads)
unfolding drain_pending_reads IsFiled contains_key get
drain_pending_reads-store_each it now s =
    let reads = s.pending_reads in
    let copy : ℕ → Blobs = λ o. payloads (own o reads) [] in
    let emptied : AppState = record s { pending_reads = [] } in
    let drained = read_all reads nothing_read in
    let r = read_all-HasRead reads [] nothing_read tt (λ p. refl) in
    ap (λ (os : List ℕ). store_all it now os drained.grouped (emptied, drained.outcomes))
      r.all_orders
    ∙ ap
        (λ (os : List ReadOutcome).
          store_all it now (offers_of [] reads) drained.grouped (emptied, os))
        r.all_reports
    ∙ store_all-store_each it now copy (offers_of [] reads) drained.grouped _ r.all_maps
        (offers_of-IsDistinct reads [])
        (All-imp (offers_of [] reads) (λ o full. (r.all_files o, full []))
          (offers_of-IsFull reads []))

length-offers_of : (reads : List PendingRead) → length (offers_of [] reads) ≤ length reads
unfolding contains_key
length-offers_of reads = omega (
  arith,
  ap length (read_all-HasRead reads [] nothing_read tt (λ p. refl)).all_orders,
  length-read_all reads nothing_read,
)

-- In a valid history whose id counter does not wrap, draining adds one copy to the history for each
-- offer with a payload, in the order of the first payloads: the payloads of the reads of that offer,
-- each cut to the limit, of each type the last. The types of these offers are forgotten, and the
-- queue is empty. The outcomes are the reports of the reads, then exactly one for each copy: the id
-- and the primary type of the entry that it became, or that it was ignored, since it has no payload
-- or repeats the latest entry. Nothing else of the state changes.
pub drain_pending_reads_lem :
    (it : BlobOrder) (now : ℕ → SystemTime) (s : AppState)
    → IsValid s.clipboard
    → s.clipboard.next_id + length s.pending_reads < 2 ^ 64
    → let os = offers_of [] s.pending_reads in
      let copy : ℕ → Blobs = λ o. payloads (own o s.pending_reads) [] in
      drain_pending_reads it now s ≡ (
        record s {
          pending_reads = [];
          offers = without_offers os s.offers;
          clipboard = with_copies it now copy os s.clipboard;
        },
        all_outcomes s.pending_reads ++ copy_outcomes it now copy os s.clipboard,
      )
drain_pending_reads_lem it now s valid room =
    drain_pending_reads-store_each it now s
    ∙ store_each_lem it now (λ o. payloads (own o s.pending_reads) [])
        (offers_of [] s.pending_reads) (record s { pending_reads = [] }) _ valid
        (omega (arith, room, length-offers_of s.pending_reads))
