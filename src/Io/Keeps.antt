-- ===== src/Io/Keeps.antt =====
-- src/clipboard/io.rs: what draining the reads leaves alone.
use uclip_daemon.Base.{
  ℕ, ◌≡◌, refl, Option, List, [], ◌∷◌, Bool, true, false, is_empty, if◌then◌else◌,
}
use uclip_daemon.Base.Eq.{nat_eq}
use uclip_daemon.HashMap.{HashMap, get, remove}
use uclip_daemon.History.Content.{Blobs, BlobOrder, unwrap_or}
use uclip_daemon.History.State.{SystemTime}
use uclip_daemon.App.{AppState, Proxy, remove_offer}
use uclip_daemon.Io.{ReadOutcome, store_all, store_blobs, drain_pending_reads}

-- No request is made, and the objects of the connection are as they were.
abbrev pub Keeps : AppState → AppState → Type 0
Keeps s t =
    (t.requests ≡ s.requests) × (t.current_source ≡ s.current_source) × (t.manager ≡ s.manager)

if_holds :
    (P : AppState × List ReadOutcome → Type 0) (b : Bool) (x y : AppState × List ReadOutcome)
    → P x
    → P y
    → P (if b then x else y)
if_holds P true x y h k = h
if_holds P false x y h k = k

store_all-Keeps :
    (it : BlobOrder) (now : ℕ → SystemTime) (order : List ℕ) (grouped : HashMap ℕ Blobs)
    (s : AppState) (x : AppState × List ReadOutcome)
    → Keeps s x.0
    → Keeps s (store_all it now order grouped x).0
unfolding store_all store_blobs remove_offer
store_all-Keeps it now [] grouped s (t, outcomes) h = h
store_all-Keeps it now (o ∷ order) grouped s (t, outcomes) h =
    let blobs = unwrap_or (get grouped o) [] in
    store_all-Keeps it now order (remove o grouped) s _ (
      if_holds (λ x. Keeps s x.0) (is_empty blobs) _
        (store_blobs it (now o) blobs (remove_offer t o, outcomes)) h h)

pub drain_pending_reads-Keeps :
    (it : BlobOrder) (now : ℕ → SystemTime) (s : AppState)
    → Keeps s (drain_pending_reads it now s).0
unfolding drain_pending_reads
drain_pending_reads-Keeps it now s = store_all-Keeps it now _ _ s _ (refl, refl, refl)

store_all-pending_reads :
    (it : BlobOrder) (now : ℕ → SystemTime) (order : List ℕ) (grouped : HashMap ℕ Blobs)
    (x : AppState × List ReadOutcome)
    → x.0.pending_reads ≡ []
    → (store_all it now order grouped x).0.pending_reads ≡ []
unfolding store_all store_blobs remove_offer
store_all-pending_reads it now [] grouped (s, outcomes) h = h
store_all-pending_reads it now (o ∷ order) grouped (s, outcomes) h =
    store_all-pending_reads it now order (remove o grouped) _
      (if_holds (λ x. x.0.pending_reads ≡ []) (is_empty (unwrap_or (get grouped o) [])) _ _ h h)

-- Every queued read is taken.
pub pending_reads-drain_pending_reads :
    (it : BlobOrder) (now : ℕ → SystemTime) (s : AppState)
    → (drain_pending_reads it now s).0.pending_reads ≡ []
unfolding drain_pending_reads
pending_reads-drain_pending_reads it now s = store_all-pending_reads it now _ _ _ refl

store_all-current_selection :
    (it : BlobOrder) (now : ℕ → SystemTime) (order : List ℕ) (grouped : HashMap ℕ Blobs)
    (o : Option Proxy) (x : AppState × List ReadOutcome)
    → x.0.current_selection ≡ o
    → (store_all it now order grouped x).0.current_selection ≡ o
unfolding store_all store_blobs remove_offer
store_all-current_selection it now [] grouped o (s, outcomes) h = h
store_all-current_selection it now (k ∷ order) grouped o (s, outcomes) h =
    store_all-current_selection it now order (remove k grouped) o _
      (if_holds (λ x. x.0.current_selection ≡ o) (is_empty (unwrap_or (get grouped k) [])) _ _ h h)

-- The selection is as it was.
pub current_selection-drain_pending_reads :
    (it : BlobOrder) (now : ℕ → SystemTime) (s : AppState)
    → (drain_pending_reads it now s).0.current_selection ≡ s.current_selection
unfolding drain_pending_reads
current_selection-drain_pending_reads it now s = store_all-current_selection it now _ _ _ _ refl
