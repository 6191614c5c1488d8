-- ===== src/HashMap/Laws.antt =====
-- Reading a map after it was changed.
use uclip_daemon.Base.{
  ◌≡◌, refl, Bool, true, false, [], ◌∷◌, Option, none, some, arith, if◌then◌else◌, retain,
}
use uclip_daemon.Base.Eq.{Eq, ◌==◌}
use uclip_daemon.HashMap.{HashMap, get, contains_key, insert, remove, extend, or_insert, IsMap}

abbrev pub is_some {ℓ} : {A : Type ℓ} → Option A → Bool
is_some none = false
is_some (some a) = true

module _ {ℓ κ} {K : Type ℓ} {V : Type κ} ⦃e : Eq K⦄ where
  pub get-insert :
      (k j : K) (v : V) (m : HashMap K V)
      → get (insert k v m) j ≡ (if k == j then some v else get m j)
  unfolding get insert
  get-insert k j v [] = refl
  get-insert k j v ((i, w) ∷ m) =
      ground (arith, e.beq_iff k j, e.beq_iff i k, e.beq_iff i j, get-insert k j v m)

  pub insert-IsMap : (k : K) (v : V) (m : HashMap K V) → IsMap m → IsMap (insert k v m)
  unfolding get insert
  insert-IsMap k v [] h = (refl, tt)
  insert-IsMap k v ((i, w) ∷ m) h =
      ground (arith, e.beq_iff i k, e.beq_iff k i, get-insert k i v m, insert-IsMap k v m h.1)

  pub get-remove :
      (k j : K) (m : HashMap K V)
      → IsMap m
      → get (remove k m) j ≡ (if k == j then none else get m j)
  unfolding get remove
  get-remove k j [] h = ground arith
  get-remove k j ((i, w) ∷ m) h =
      ground (arith, e.beq_iff k j, e.beq_iff i k, e.beq_iff i j, get-remove k j m h.1)

  pub remove-IsMap : (k : K) (m : HashMap K V) → IsMap m → IsMap (remove k m)
  unfolding get remove
  remove-IsMap k [] h = tt
  remove-IsMap k ((i, w) ∷ m) h = ground (arith, get-remove k i m h.1, remove-IsMap k m h.1)

  pub contains_key-get : (m : HashMap K V) (k : K) → contains_key m k ≡ is_some (get m k)
  unfolding get contains_key
  contains_key-get [] k = refl
  contains_key-get ((j, v) ∷ m) k = ground (arith, contains_key-get m k)

  pub get-or_insert :
      (k j : K) (v : V) (m : HashMap K V)
      → get (or_insert k v m) j
        ≡ (if k == j then (if is_some (get m k) then get m k else some v) else get m j)
  unfolding or_insert
  get-or_insert k j v m = ground (arith, contains_key-get m k, get-insert k j v m, e.beq_iff k j)

  pub or_insert-IsMap : (k : K) (v : V) (m : HashMap K V) → IsMap m → IsMap (or_insert k v m)
  unfolding or_insert
  or_insert-IsMap k v m h = ground (arith, insert-IsMap k v m h)

  pub extend-IsMap : (m n : HashMap K V) → IsMap m → IsMap (extend m n)
  unfolding extend
  extend-IsMap m [] h = h
  extend-IsMap m ((k, v) ∷ n) h = extend-IsMap (insert k v m) n (insert-IsMap k v m h)

  -- What extends a map comes first.
  pub get-extend :
      (m n : HashMap K V) (j : K)
      → IsMap n
      → get (extend m n) j ≡ (if is_some (get n j) then get n j else get m j)
  unfolding extend get
  get-extend m [] j h = refl
  get-extend m ((k, v) ∷ n) j h =
      ground (arith, get-extend (insert k v m) n j h.1, get-insert k j v m, e.beq_iff k j)

-- What a filter lets through at a key.
abbrev pub keep {ℓ κ} : {K : Type ℓ} {V : Type κ} → (K × V → Bool) → K → Option V → Option V
keep p k none = none
keep p k (some v) = if p (k, v) then some v else none

module _ {ℓ κ} {K : Type ℓ} {V : Type κ} ⦃e : Eq K⦄ (p : K × V → Bool) where
  pub get-retain : (m : HashMap K V) (k : K) → IsMap m → get (retain p m) k ≡ keep p k (get m k)
  unfolding get
  get-retain [] k h = refl
  get-retain ((j, v) ∷ m) k h =
      ground (arith, get-retain m k h.1, get-retain m j h.1, e.beq_iff j k)

  pub retain-IsMap : (m : HashMap K V) → IsMap m → IsMap (retain p m)
  unfolding get
  retain-IsMap [] h = tt
  retain-IsMap ((j, v) ∷ m) h = ground (arith, get-retain m j h.1, retain-IsMap m h.1)
