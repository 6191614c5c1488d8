-- ===== src/App/Ownership.antt =====
-- src/clipboard/state.rs: how often each source was created and destroyed, and which one is owned.
use uclip_daemon.Base.{
  ℕ, ◌+◌, ◌≡◌, refl, inl, inr, String, List, [], ◌∷◌, ◌++◌, map, Bool, true, false, Option, none,
  some, arith,
}
use uclip_daemon.HashMap.{keys}
use uclip_daemon.History.Content.{Blobs, BlobOrder}
use uclip_daemon.App.{
  AppState, Proxy, Request, create_source, offer_mime, set_device_selection, destroy_source,
  same_proxy, restore_entry,
}
use uclip_daemon.App.Restore.{restore_requests, destroyed, restore_entry_cases}

-- How often a source was created, and destroyed, among some requests.
abbrev pub one_if : Bool → ℕ
one_if true = 1
one_if false = 0

abbrev creates : Proxy → Request → ℕ
creates p (create_source q contents) = one_if (same_proxy q p)
creates p _ = 0

abbrev destroys : Proxy → Request → ℕ
destroys p (destroy_source q) = one_if (same_proxy q p)
destroys p _ = 0

unfoldable pub created : Proxy → List Request → ℕ
created p [] = 0
created p (r ∷ rs) = creates p r + created p rs

unfoldable pub destroyed_count : Proxy → List Request → ℕ
destroyed_count p [] = 0
destroyed_count p (r ∷ rs) = destroys p r + destroyed_count p rs

abbrev pub owned : Proxy → Option Proxy → ℕ
owned p none = 0
owned p (some q) = one_if (same_proxy q p)

-- Each source was created as often as it was destroyed, and once more if it is the current one.
pub record IsOwned (s : AppState) : Type 0 where
  pub balance :
      (p : Proxy) → created p s.requests ≡ destroyed_count p s.requests + owned p s.current_source

pub created-append :
    (p : Proxy) (xs ys : List Request) → created p (xs ++ ys) ≡ created p xs + created p ys
unfolding created
created-append p [] ys = omega arith
created-append p (x ∷ xs) ys = omega (arith, created-append p xs ys)

pub destroyed-append :
    (p : Proxy) (xs ys : List Request)
    → destroyed_count p (xs ++ ys) ≡ destroyed_count p xs + destroyed_count p ys
unfolding destroyed_count
destroyed-append p [] ys = omega arith
destroyed-append p (x ∷ xs) ys = omega (arith, destroyed-append p xs ys)

created-offers :
    (p source : Proxy) (ms : List String) (rest : List Request)
    → (created p (map (offer_mime source) ms ++ rest) ≡ created p rest)
      × (destroyed_count p (map (offer_mime source) ms ++ rest) ≡ destroyed_count p rest)
unfolding created destroyed_count
created-offers p source [] rest = (refl, refl)
created-offers p source (m ∷ ms) rest = omega (arith, created-offers p source ms rest)

-- Requests that are about no source.
abbrev IsNeutral : Request → Type 0
IsNeutral r = (p : Proxy) → (creates p r ≡ 0) × (destroys p r ≡ 0)

pub IsOwned-request :
    (s t : AppState) (r : Request)
    → IsNeutral r
    → t.requests ≡ s.requests ++ r ∷ []
    → t.current_source ≡ s.current_source
    → IsOwned s
    → IsOwned t
unfolding created destroyed_count
IsOwned-request s t r neutral made same h = record {
  balance = λ p.
      rw (made, same)
        (omega (
          arith,
          created-append p s.requests (r ∷ []),
          destroyed-append p s.requests (r ∷ []),
          neutral p,
          h.balance p,
        ));
}

pub IsOwned-same :
    (s t : AppState)
    → t.requests ≡ s.requests
    → t.current_source ≡ s.current_source
    → IsOwned s
    → IsOwned t
IsOwned-same s t made same h = record { balance = λ p. rw (made, same) (h.balance p) }

destroyed_lem :
    (p : Proxy) (o : Option Proxy)
    → (created p (destroyed o) ≡ 0) × (destroyed_count p (destroyed o) ≡ owned p o)
unfolding created destroyed_count
destroyed_lem p none = (refl, refl)
destroyed_lem p (some q) = (refl, omega arith)

restore_requests_lem :
    (it : BlobOrder) (s : AppState) (device source p : Proxy) (contents : Blobs)
    → (created p (restore_requests it s device source contents) ≡ one_if (same_proxy source p))
      × (destroyed_count p (restore_requests it s device source contents)
          ≡ owned p s.current_source)
unfolding created destroyed_count
restore_requests_lem it s device source p contents = omega (
  arith,
  created-offers p source (keys (it.order contents))
      (set_device_selection device source ∷ destroyed s.current_source),
  destroyed_lem p s.current_source,
)

-- A restore that fails changes nothing, and one that succeeds destroys what it replaces.
pub restore_entry-IsOwned :
    (it : BlobOrder) (s : AppState) (source : Proxy) (id : ℕ)
    → IsOwned s
    → IsOwned (restore_entry it s source id).0
restore_entry-IsOwned it s source id h = elim (restore_entry_cases it s source id) [
  | inl same ↦ rw same h
  | inr (device, contents, done) ↦ rw done (record {
    balance = λ p. omega (
      arith,
      created-append p s.requests (restore_requests it s device source contents),
      destroyed-append p s.requests (restore_requests it s device source contents),
      restore_requests_lem it s device source p contents,
      h.balance p,
    );
  })
]
