-- ===== src/Io/Copies.antt =====
-- src/clipboard/io.rs: what storing the copies of some offers does to the history, and what it
-- reports of each copy, without the loop.
use uclip_daemon.Base.{
  String, ℕ, eqb_refl, ◌+◌, ◌<◌, ◌^◌, ◌≡◌, refl, sym, ap, ◌∙◌, List, [], ◌∷◌, ◌++◌, append-nil,
  append_assoc, length, Option, none, some, if◌then◌else◌, arith, Bool-cases, Option-cases, inl,
  inr,
}
use uclip_daemon.Base.Eq.{nat_eq, string_eq}
use uclip_daemon.HashMap.{HashMap, remove}
use uclip_daemon.History.Content.{Blobs, BlobOrder, ClipboardContent, from_blobs}
use uclip_daemon.History.Content.Views.{primary_mime}
use uclip_daemon.History.State.{
  SystemTime, ClipState, latest, is_repeat, get_entry, push_entry, add_content, add_grouped,
}
use uclip_daemon.History.State.Valid.{IsValid, add_grouped-IsValid}
use uclip_daemon.History.State.Reads.{new_entry, get_entry-push_entry}
use uclip_daemon.App.{AppState, OfferData, remove_offer}
use uclip_daemon.Io.{ReadOutcome, stored, ignored_duplicate, label, outcome_of, store_blobs}
use uclip_daemon.Io.Offers.{store_each}
use uclip_daemon.Io.Stored.{next_id-add_grouped}

-- The report of one copy.
unfoldable pub copy_outcome : BlobOrder → ClipState → Blobs → ReadOutcome
copy_outcome it h blobs = elim (from_blobs it blobs) [
  | none ↦ ignored_duplicate (label blobs)
  | some content ↦
      if is_repeat (latest h) content
      then ignored_duplicate (label blobs)
      else stored h.next_id (primary_mime content)
]

-- The reports of the copies of some offers, each against the history that the ones before it left.
unfoldable pub copy_outcomes :
    BlobOrder → (ℕ → SystemTime) → (ℕ → Blobs) → List ℕ → ClipState → List ReadOutcome
copy_outcomes it now copy [] h = []
copy_outcomes it now copy (o ∷ os) h =
    copy_outcome it h (copy o) ∷ copy_outcomes it now copy os (add_grouped it h (copy o) (now o)).0

-- The history with the copies of some offers added, one after another.
unfoldable pub with_copies :
    BlobOrder → (ℕ → SystemTime) → (ℕ → Blobs) → List ℕ → ClipState → ClipState
with_copies it now copy [] h = h
with_copies it now copy (o ∷ os) h =
    with_copies it now copy os (add_grouped it h (copy o) (now o)).0

unfoldable pub without_offers : List ℕ → HashMap ℕ OfferData → HashMap ℕ OfferData
without_offers [] offers = offers
without_offers (o ∷ os) offers = without_offers os (remove o offers)

pub outcome_of-push_entry :
    (s : ClipState) (valid : IsValid s) (c : ClipboardContent) (now : SystemTime) (l : String)
    → outcome_of (push_entry s c now).0 l (some s.next_id) ≡ stored s.next_id (primary_mime c) ∷ []
unfolding outcome_of
outcome_of-push_entry s valid c now l =
    let found : get_entry (push_entry s c now).0 s.next_id ≡ some (new_entry s c now) =
      get_entry-push_entry s valid c now s.next_id ∙ rw (eqb_refl s.next_id) refl in
    rw (found, outcome_of) refl

copy_outcome_lem :
    (it : BlobOrder) (s : ClipState) (valid : IsValid s) (blobs : Blobs) (now : SystemTime)
    → outcome_of (add_grouped it s blobs now).0 (label blobs) (add_grouped it s blobs now).1
      ≡ copy_outcome it s blobs ∷ []
unfolding copy_outcome outcome_of add_grouped add_content push_entry
copy_outcome_lem it s valid blobs now = elim (Option-cases (from_blobs it blobs)) [
  | inl e ↦ rw (e, add_grouped, copy_outcome) refl
  | inr (c, e) ↦ elim (Bool-cases (is_repeat (latest s) c)) [
    | inl again ↦ rw (e, add_grouped, copy_outcome, add_content, again) refl
    | inr fresh ↦
        let pushed : add_grouped it s blobs now ≡ push_entry s c now =
          rw (e, add_grouped, add_content, fresh) refl in
        let reported : copy_outcome it s blobs ≡ stored s.next_id (primary_mime c) =
          rw (e, copy_outcome, fresh) refl in
        ap (λ (x : ClipState × Option ℕ). outcome_of x.0 (label blobs) x.1) pushed
        ∙ outcome_of-push_entry s valid c now (label blobs)
        ∙ ap (λ (x : ReadOutcome). x ∷ []) (sym reported)
  ]
]

-- Storing the copies, one after another, is what the reports and the history above say.
pub store_each_lem :
    (it : BlobOrder) (now : ℕ → SystemTime) (copy : ℕ → Blobs) (os : List ℕ) (s : AppState)
    (outcomes : List ReadOutcome)
    → IsValid s.clipboard
    → s.clipboard.next_id + length os < 2 ^ 64
    → store_each it now copy os (s, outcomes) ≡ (
      record s {
        offers = without_offers os s.offers;
        clipboard = with_copies it now copy os s.clipboard;
      },
      outcomes ++ copy_outcomes it now copy os s.clipboard,
    )
unfolding store_each with_copies copy_outcomes without_offers store_blobs remove_offer
store_each_lem it now copy [] s outcomes valid room =
    ap (λ (xs : List ReadOutcome). (s, xs)) (sym (append-nil outcomes))
store_each_lem it now copy (o ∷ os) s outcomes valid room =
    let added = add_grouped it s.clipboard (copy o) (now o) in
    let t : AppState = record s { offers = remove o s.offers; clipboard = added.0 } in
    ap (λ (xs : List ReadOutcome). store_each it now copy os (t, outcomes ++ xs))
      (copy_outcome_lem it s.clipboard valid (copy o) (now o))
    ∙ store_each_lem it now copy os t (outcomes ++ copy_outcome it s.clipboard (copy o) ∷ [])
        (add_grouped-IsValid s.clipboard valid it (copy o) (now o) (omega (arith, room)))
        (omega (arith, room, next_id-add_grouped it s.clipboard (copy o) (now o)))
    ∙ ap
        (λ (xs : List ReadOutcome). (
          record t {
            offers = without_offers os t.offers;
            clipboard = with_copies it now copy os t.clipboard;
          },
          xs,
        ))
        (append_assoc outcomes (copy_outcome it s.clipboard (copy o) ∷ []) _)
