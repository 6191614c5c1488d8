-- ===== src/Io/Order.antt =====
-- src/clipboard/io.rs: the order in which the offers are stored.
use uclip_daemon.Base.{
  ℕ, ◌≡◌, refl, sym, String, List, [], ◌∷◌, eqb, eqb_refl, Bool, true, false, not, ◌&&◌, ◌||◌,
  is_empty, take, All, arith, if◌then◌else◌, Bool-cases, inl, inr,
}
use uclip_daemon.Base.Eq.{nat_eq, string_eq, contains}
use uclip_daemon.HashMap.{insert}
use uclip_daemon.Text.{Bytes}
use uclip_daemon.Config.{max_content_bytes}
use uclip_daemon.History.Content.{Blobs}
use uclip_daemon.App.{PendingRead, ReadEnd, delivers, fails}
use uclip_daemon.Io.Grouping.{add_payload, payloads}
use uclip_daemon.Io.Offers.{is_filled, own, offers_of}

and_left : (a b : Bool) → (a && b) ≡ true → a ≡ true
and_left true b h = refl
and_left false b h = h

not-true : (b : Bool) → not b ≡ true → b ≡ false
not-true true h = sym h
not-true false h = refl

and_not : (a b : Bool) → (a && not b) ≡ true → b ≡ false
and_not true b h = not-true b h
and_not false b h = cc

no_right : (a b : Bool) → (a || b) ≡ false → b ≡ false
no_right true b h = cc
no_right false b h = h

no_left : (a b : Bool) → (a || b) ≡ false → a ≡ false
no_left true b h = h
no_left false b h = refl

is_empty-if :
    (b : Bool) (x y : Blobs)
    → is_empty x ≡ false
    → is_empty y ≡ false
    → is_empty (if b then x else y) ≡ false
is_empty-if true x y h k = h
is_empty-if false x y h k = k

abbrev pub IsDistinct : List ℕ → Type 0
IsDistinct [] = Unit
IsDistinct (o ∷ os) = All (λ (p : ℕ). eqb o p ≡ false) os × IsDistinct os

pub All-imp : {P Q : ℕ → Type 0} (os : List ℕ) → ((o : ℕ) → P o → Q o) → All P os → All Q os
All-imp [] f h = tt
All-imp (o ∷ os) f h = (f o h.0, All-imp os f h.1)

offers_of-unseen :
    (reads : List PendingRead) (seen : List ℕ)
    → All (λ (o : ℕ). contains seen o ≡ false) (offers_of seen reads)
unfolding offers_of
offers_of-unseen [] seen = tt
offers_of-unseen (r ∷ reads) seen =
    elim (Bool-cases (is_filled r.fd && not (contains seen r.offer_id))) [
      | inl first ↦ rw first (
        and_not _ _ first,
        All-imp (offers_of (r.offer_id ∷ seen) reads) (λ o. no_right _ _)
            (offers_of-unseen reads (r.offer_id ∷ seen)),
      )
      | inr later ↦ rw later (offers_of-unseen reads seen)
    ]

pub offers_of-IsDistinct :
    (reads : List PendingRead) (seen : List ℕ) → IsDistinct (offers_of seen reads)
unfolding offers_of
offers_of-IsDistinct [] seen = tt
offers_of-IsDistinct (r ∷ reads) seen =
    elim (Bool-cases (is_filled r.fd && not (contains seen r.offer_id))) [
      | inl first ↦ rw first (
        All-imp (offers_of (r.offer_id ∷ seen) reads) (λ o. no_left _ _)
            (offers_of-unseen reads (r.offer_id ∷ seen)),
        offers_of-IsDistinct reads (r.offer_id ∷ seen),
      )
      | inr later ↦ rw later (offers_of-IsDistinct reads seen)
    ]

is_empty-insert : (k : String) (v : Bytes) (m : Blobs) → is_empty (insert k v m) ≡ false
unfolding insert
is_empty-insert k v [] = refl
is_empty-insert k v ((j, w) ∷ m) = ground arith

is_empty-payloads :
    (reads : List PendingRead) (m : Blobs)
    → is_empty m ≡ false
    → is_empty (payloads reads m) ≡ false
unfolding payloads
is_empty-payloads [] m h = h
is_empty-payloads (r ∷ reads) m h = is_empty-payloads reads _ (kept r.fd)
  where
    kept : (fd : ReadEnd) → is_empty (add_payload r.mime_type fd m) ≡ false
    kept (fails e) = h
    kept (delivers bytes) =
        is_empty-if (is_empty (take max_content_bytes bytes)) m _ h
          (is_empty-insert r.mime_type (take max_content_bytes bytes) m)

-- There is a payload for the offer, whatever was there before.
abbrev pub IsFull : List PendingRead → ℕ → Type 0
IsFull reads o = (m : Blobs) → is_empty (payloads (own o reads) m) ≡ false

filled-IsFull :
    (r : PendingRead) (reads : List PendingRead)
    → is_filled r.fd ≡ true
    → IsFull (r ∷ reads) r.offer_id
unfolding payloads
filled-IsFull r reads h m =
    rw (eqb_refl r.offer_id) (is_empty-payloads (own r.offer_id reads) _ (added r.fd h))
  where
    added : (fd : ReadEnd) → is_filled fd ≡ true → is_empty (add_payload r.mime_type fd m) ≡ false
    added (fails e) k = cc
    added (delivers bytes) k =
        rw (not-true (is_empty (take max_content_bytes bytes)) k)
          (is_empty-insert r.mime_type (take max_content_bytes bytes) m)

IsFull-more :
    (r : PendingRead) (reads : List PendingRead) (o : ℕ) → IsFull reads o → IsFull (r ∷ reads) o
unfolding payloads
IsFull-more r reads o h m = elim (Bool-cases (eqb r.offer_id o)) [
  | inl e ↦ rw e (h (add_payload r.mime_type r.fd m))
  | inr e ↦ rw e (h m)
]

pub offers_of-IsFull :
    (reads : List PendingRead) (seen : List ℕ) → All (IsFull reads) (offers_of seen reads)
unfolding offers_of
offers_of-IsFull [] seen = tt
offers_of-IsFull (r ∷ reads) seen =
    elim (Bool-cases (is_filled r.fd && not (contains seen r.offer_id))) [
      | inl first ↦ rw first (
        filled-IsFull r reads (and_left _ _ first),
        All-imp (offers_of (r.offer_id ∷ seen) reads) (IsFull-more r reads)
            (offers_of-IsFull reads (r.offer_id ∷ seen)),
      )
      | inr later ↦
          rw later
            (All-imp (offers_of seen reads) (IsFull-more r reads) (offers_of-IsFull reads seen))
    ]
