-- ===== src/HashMap.antt =====
-- `std::collections::HashMap` as the source uses it: an association list with each key once.
-- A list stands for the map with those entries. The order in which a real map is visited is
-- unspecified and differs from map to map, so code that iterates takes an `Iteration`.
pub mod Laws
pub mod Order
pub mod Visits
use uclip_daemon.Base.{
  ℕ, Bool, true, false, ◌&&◌, ◌≡◌, List, [], ◌∷◌, Option, none, some, length, map, if◌then◌else◌,
  eqb,
}
use uclip_daemon.Base.Eq.{Eq, ◌==◌}
use mathlib.Core.List.Permᴰ.{Permᴰ}

abbrev pub HashMap {ℓ κ} : Type ℓ → Type κ → Type (ℓ ⊔ κ)
HashMap K V = List (K × V)

abbrev pub keys {ℓ κ} : {K : Type ℓ} {V : Type κ} → HashMap K V → List K
keys m = map (λ e. e.0) m

abbrev pub values {ℓ κ} : {K : Type ℓ} {V : Type κ} → HashMap K V → List V
values m = map (λ e. e.1) m

-- The order in which the iterators of maps visit the entries: each entry, once.
pub record Iteration {ℓ} (A : Type ℓ) : Type ℓ where
  pub order : List A → List A
  pub order_perm : (m : List A) → Permᴰ (order m) m

module _ {ℓ κ} {K : Type ℓ} {V : Type κ} ⦃e : Eq K⦄ where
  unfoldable pub get : HashMap K V → K → Option V
  get [] k = none
  get ((j, v) ∷ m) k = if j == k then some v else get m k

  unfoldable pub contains_key : HashMap K V → K → Bool
  contains_key [] k = false
  contains_key ((j, v) ∷ m) k = if j == k then true else contains_key m k

  -- A key that is there keeps its place.
  unfoldable pub insert : K → V → HashMap K V → HashMap K V
  insert k v [] = (k, v) ∷ []
  insert k v ((i, u) ∷ m) = if i == k then (k, v) ∷ m else (i, u) ∷ insert k v m

  unfoldable pub remove : K → HashMap K V → HashMap K V
  remove k [] = []
  remove k ((j, w) ∷ m) = if j == k then m else (j, w) ∷ remove k m

  -- `extend` from pairs, `collect`.
  unfoldable pub extend : HashMap K V → List (K × V) → HashMap K V
  unfolding insert
  extend m [] = m
  extend m ((k, v) ∷ rest) = extend (insert k v m) rest

  -- `entry(k).or_insert_with(|| v)`.
  unfoldable pub or_insert : K → V → HashMap K V → HashMap K V
  unfolding contains_key
  or_insert k v m = if contains_key m k then m else insert k v m

  -- Each key stands once.
  abbrev pub IsMap : HashMap K V → Type κ
  IsMap [] = Unit
  IsMap ((k, v) ∷ m) = (get m k ≡ none) × IsMap m

abbrev pub holds {κ} : {V : Type κ} ⦃f : Eq V⦄ → Option V → V → Bool
holds none v = false
holds (some w) v = v == w

module _ {ℓ κ} {K : Type ℓ} {V : Type κ} ⦃e : Eq K⦄ ⦃f : Eq V⦄ where
  unfoldable pub all_held : HashMap K V → HashMap K V → Bool
  all_held [] b = true
  all_held ((k, v) ∷ a) b = holds (get b k) v && all_held a b

  -- `PartialEq` for maps: as many entries, and every entry of the first is in the second.
  unfoldable pub map_beq : HashMap K V → HashMap K V → Bool
  unfolding all_held get
  map_beq a b = eqb (length a) (length b) && all_held a b
