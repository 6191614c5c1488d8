-- ===== src/Io/Offers.antt =====
-- src/clipboard/io.rs: the reads of any offers, offer by offer.
use uclip_daemon.Base.{
  ℕ, ◌+◌, ◌≡◌, refl, sym, ap, ◌∙◌, subst, String, List, [], ◌∷◌, ◌++◌, append-nil, append_assoc,
  eqb, Bool, true, false, not, ◌&&◌, is_empty, take, length, ltb, retain, arith, if◌then◌else◌,
  Bool-cases, inl, inr,
}
use uclip_daemon.Base.Eq.{nat_eq, string_eq, contains}
use uclip_daemon.HashMap.{get, contains_key, insert, IsMap}
use uclip_daemon.HashMap.Laws.{get-insert, insert-IsMap, contains_key-get}
use uclip_daemon.Text.{Bytes}
use uclip_daemon.Config.{max_content_bytes}
use uclip_daemon.History.Content.{Blobs, BlobOrder, unwrap_or}
use uclip_daemon.History.State.{SystemTime}
use uclip_daemon.App.{AppState, PendingRead, ReadEnd, delivers, fails, remove_offer}
use uclip_daemon.Io.{
  ReadOutcome, truncated, BoundedRead, read_bounded, Drained, note_truncated, group_read, take_read,
  read_all, store_blobs,
}
use uclip_daemon.Io.Bounded.{read_bounded_lem}
use uclip_daemon.Io.Grouping.{add_payload, payloads, read_outcomes, all_outcomes}

-- The read delivered a payload that is not empty.
abbrev pub is_filled : ReadEnd → Bool
is_filled (fails e) = false
is_filled (delivers bytes) = not (is_empty (take max_content_bytes bytes))

-- The reads of one offer.
abbrev pub own : ℕ → List PendingRead → List PendingRead
own o = retain (λ (r : PendingRead). eqb r.offer_id o)

-- The offers with a payload, beside those that were seen, in the order of their first payload.
unfoldable pub offers_of : List ℕ → List PendingRead → List ℕ
offers_of seen [] = []
offers_of seen (r ∷ reads) =
    let first = is_filled r.fd && not (contains seen r.offer_id) in
    let later = offers_of (r.offer_id ∷ seen) reads in
    let others = offers_of seen reads in if first then r.offer_id ∷ later else others

-- The copies of the offers, one after another.
unfoldable pub store_each :
    BlobOrder
    → (ℕ → SystemTime)
    → (ℕ → Blobs)
    → List ℕ
    → AppState × List ReadOutcome
    → AppState × List ReadOutcome
store_each it now copy [] x = x
store_each it now copy (o ∷ offers) (s, outcomes) =
    store_each it now copy offers (store_blobs it (now o) (copy o) (remove_offer s o, outcomes))

-- What is filed under an offer.
abbrev pub filed : Drained → ℕ → Blobs
filed d o = unwrap_or (get d.grouped o) []

-- After one read: its report, its payload, and the order.
record HasTaken (o : ℕ) (m : String) (fd : ReadEnd) (d d' : Drained) : Type 0 where
  reports : d'.outcomes ≡ d.outcomes ++ read_outcomes m fd
  files : (p : ℕ) → filed d' p ≡ (if eqb o p then add_payload m fd (filed d p) else filed d p)
  knows :
      (p : ℕ)
      → contains_key d'.grouped p
        ≡ (if eqb o p && is_filled fd then true else contains_key d.grouped p)
  orders :
      d'.order
      ≡ (if is_filled fd && not (contains_key d.grouped o) then d.order ++ o ∷ [] else d.order)
  maps : IsMap d.grouped → IsMap d'.grouped

if_true : {A : Type 0} {b : Bool} → b ≡ true → (x y : A) → (if b then x else y) ≡ x
if_true h x y = rw h

if_false : {A : Type 0} {b : Bool} → b ≡ false → (x y : A) → (if b then x else y) ≡ y
if_false h x y = rw h

if_same : {A : Type 0} (b : Bool) (x : A) → x ≡ (if b then x else x)
if_same true x = refl
if_same false x = refl

and_false : {A : Type 0} (b : Bool) (x y : A) → y ≡ (if b && false then x else y)
and_false true x y = refl
and_false false x y = refl

note_truncated_lem :
    (cut : Bool) (m : String) (d : Drained)
    → note_truncated cut m d ≡ record d {
      outcomes = d.outcomes ++ (if cut then truncated m (max_content_bytes + 1) ∷ [] else []);
    }
unfolding note_truncated
note_truncated_lem true m d = refl
note_truncated_lem false m d =
    ap (λ (os : List ReadOutcome). let r : Drained = record d { outcomes = os } in r)
      (sym (append-nil d.outcomes))

group_read-order :
    (o : ℕ) (m : String) (x : ℕ) (v : Bytes) (d : Drained)
    → (group_read o m (x ∷ v) d).order
      ≡ (if not (contains_key d.grouped o) then d.order ++ o ∷ [] else d.order)
unfolding group_read
group_read-order o m x v d = ground arith

-- The payload is filed; the outcomes are as before.
group_read-HasTaken :
    (o : ℕ) (m : String) (v : Bytes) (d : Drained)
    → let d' = group_read o m v d in
      (d'.outcomes ≡ d.outcomes)
      × ((p : ℕ)
          → filed d' p ≡ (
              if eqb o p
              then (if is_empty v then filed d p else insert m v (filed d p))
              else filed d p))
      × ((p : ℕ)
          → contains_key d'.grouped p
            ≡ (if eqb o p && not (is_empty v) then true else contains_key d.grouped p))
      × (d'.order ≡ (
          if not (is_empty v) && not (contains_key d.grouped o)
          then d.order ++ o ∷ []
          else d.order))
      × (IsMap d.grouped → IsMap d'.grouped)
unfolding group_read
group_read-HasTaken o m [] d = (
  refl,
  (λ p. if_same (eqb o p) (filed d p)),
  (λ p. and_false (eqb o p) true (contains_key d.grouped p)),
  refl,
  λ h. h,
)
group_read-HasTaken o m (x ∷ v) d = (
  refl,
  (λ p.
      let v' = insert m (x ∷ v) (unwrap_or (get d.grouped o) []) in
      ground (arith, get-insert o p v' d.grouped, nat_eq.beq_iff o p)),
  (λ p.
      let v' = insert m (x ∷ v) (unwrap_or (get d.grouped o) []) in
      ground (
        arith,
        get-insert o p v' d.grouped,
        contains_key-get d.grouped p,
        contains_key-get (insert o v' d.grouped) p,
      )),
  group_read-order o m x v d,
  insert-IsMap o _ d.grouped,
)

take_read-HasTaken :
    (o : ℕ) (m : String) (fd : ReadEnd) (d : Drained)
    → HasTaken o m fd d (take_read o m (read_bounded fd) d)
unfolding take_read
take_read-HasTaken o m (fails e) d =
    unfold read_bounded in
    record {
      reports = refl;
      files = λ p. if_same (eqb o p) (filed d p);
      knows = λ p. and_false (eqb o p) true (contains_key d.grouped p);
      orders = refl;
      maps = λ h. h;
    }
take_read-HasTaken o m (delivers bytes) d =
    let buf = take max_content_bytes bytes in
    let cut = ltb max_content_bytes (length bytes) in
    let noted : Drained = record d {
      outcomes = d.outcomes ++ (if cut then truncated m (max_content_bytes + 1) ∷ [] else []);
    } in
    let taken : take_read o m (read_bounded (delivers bytes)) d ≡ group_read o m buf noted =
      ap (λ (b : BoundedRead). take_read o m b d) (read_bounded_lem bytes)
      ∙ ap (group_read o m buf) (note_truncated_lem cut m d) in
    let (reports, files, knows, orders, maps) = group_read-HasTaken o m buf noted in
    subst (HasTaken o m (delivers bytes) d) (sym taken)
      (record { reports = reports; files = files; knows = knows; orders = orders; maps = maps })

-- After all the reads.
pub record HasRead (reads : List PendingRead) (seen : List ℕ) (d d' : Drained) : Type 0 where
  pub all_reports : d'.outcomes ≡ d.outcomes ++ all_outcomes reads
  pub all_files : (p : ℕ) → filed d' p ≡ payloads (own p reads) (filed d p)
  pub all_orders : d'.order ≡ d.order ++ offers_of seen reads
  pub all_maps : IsMap d'.grouped

own-payloads :
    (r : PendingRead) (reads : List PendingRead) (p : ℕ) (x y : Blobs)
    → y ≡ (if eqb r.offer_id p then add_payload r.mime_type r.fd x else x)
    → payloads (own p reads) y ≡ payloads (own p (r ∷ reads)) x
unfolding payloads
own-payloads r reads p x y h = elim (Bool-cases (eqb r.offer_id p)) [
  | inl e ↦ rw e (ap (payloads (own p reads)) (h ∙ if_true e _ _))
  | inr e ↦ rw e (ap (payloads (own p reads)) (h ∙ if_false e _ _))
]

-- The offers that are known after a read.
module _ (o p : ℕ) (filled : Bool) (seen : List ℕ) (known known' : Bool)
    (h : known' ≡ (if eqb o p && filled then true else known)) (g : known ≡ contains seen p) where
  known_first : (filled && not (contains seen o)) ≡ true → known' ≡ contains (o ∷ seen) p
  known_first first = ground arith

  known_later : (filled && not (contains seen o)) ≡ false → known' ≡ contains seen p
  known_later later = elim (Bool-cases (eqb o p)) [
    | inl e ↦
        let same : contains seen o ≡ contains seen p =
          ap (contains seen) ((nat_eq.beq_iff o p).0 e) in
        ground arith
    | inr e ↦ ground arith
  ]

pub read_all-HasRead :
    (reads : List PendingRead) (seen : List ℕ) (d : Drained)
    → IsMap d.grouped
    → ((p : ℕ) → contains_key d.grouped p ≡ contains seen p)
    → HasRead reads seen d (read_all reads d)
unfolding read_all payloads all_outcomes offers_of
read_all-HasRead [] seen d valid same = record {
  all_reports = sym (append-nil d.outcomes);
  all_files = λ p. refl;
  all_orders = sym (append-nil d.order);
  all_maps = valid;
}
read_all-HasRead (r ∷ reads) seen d valid same =
    let t = take_read-HasTaken r.offer_id r.mime_type r.fd d in
    let d' = take_read r.offer_id r.mime_type (read_bounded r.fd) d in
    let o = r.offer_id in
    elim (Bool-cases (is_filled r.fd && not (contains seen o))) [
      | inl first ↦
          let rest =
            read_all-HasRead reads (o ∷ seen) d' (t.maps valid)
              (λ p. known_first o p (is_filled r.fd) seen _ _ (t.knows p) (same p) first) in
          record {
            all_reports = reported d' t.reports rest.all_reports;
            all_files = λ p. rest.all_files p ∙ own-payloads r reads p _ _ (t.files p);
            all_orders =
                rest.all_orders
                ∙ ap (λ (os : List ℕ). os ++ offers_of (o ∷ seen) reads)
                    (ordered d' true first t.orders)
                ∙ append_assoc d.order (o ∷ []) (offers_of (o ∷ seen) reads)
                ∙ ap (λ (os : List ℕ). d.order ++ os) (sym (if_true first _ _));
            all_maps = rest.all_maps;
          }
      | inr later ↦
          let rest =
            read_all-HasRead reads seen d' (t.maps valid)
              (λ p. known_later o p (is_filled r.fd) seen _ _ (t.knows p) (same p) later) in
          record {
            all_reports = reported d' t.reports rest.all_reports;
            all_files = λ p. rest.all_files p ∙ own-payloads r reads p _ _ (t.files p);
            all_orders =
                rest.all_orders
                ∙ ap (λ (os : List ℕ). os ++ offers_of seen reads) (ordered d' false later t.orders)
                ∙ ap (λ (os : List ℕ). d.order ++ os) (sym (if_false later _ _));
            all_maps = rest.all_maps;
          }
    ]
  where
    reported :
        (d' : Drained) {os : List ReadOutcome}
        → d'.outcomes ≡ d.outcomes ++ read_outcomes r.mime_type r.fd
        → os ≡ d'.outcomes ++ all_outcomes reads
        → os ≡ d.outcomes ++ (read_outcomes r.mime_type r.fd ++ all_outcomes reads)
    reported d' h k =
        k
        ∙ ap (λ (os : List ReadOutcome). os ++ all_outcomes reads) h
        ∙ append_assoc d.outcomes (read_outcomes r.mime_type r.fd) (all_outcomes reads)

    ordered :
        (d' : Drained) (b : Bool)
        → (is_filled r.fd && not (contains seen r.offer_id)) ≡ b
        → d'.order ≡ (
            if is_filled r.fd && not (contains_key d.grouped r.offer_id)
            then d.order ++ r.offer_id ∷ []
            else d.order)
        → d'.order ≡ (if b then d.order ++ r.offer_id ∷ [] else d.order)
    ordered d' b h k =
        k
        ∙ ap (λ (c : Bool). if is_filled r.fd && not c then d.order ++ r.offer_id ∷ [] else d.order)
            (same r.offer_id)
        ∙ ap (λ (c : Bool). if c then d.order ++ r.offer_id ∷ [] else d.order) h
