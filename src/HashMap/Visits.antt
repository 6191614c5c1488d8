-- ===== src/HashMap/Visits.antt =====
-- What a filter, and a rebuilt map, keep of the order in which a map is visited.
use mathlib.Core.List.Permᴰ
use mathlib.Core.List.Permᴰ.{Permᴰ}
use uclip_daemon.Base.{
  ◌≡◌, refl, sym, ap, ◌∙◌, List, [], ◌∷◌, ◌++◌, append_assoc, append-nil, Bool, true, none, some,
  arith, Bool-cases, inl, inr, retain, length, eqb_refl,
}
use uclip_daemon.Base.Eq.{Eq}
use uclip_daemon.HashMap.{HashMap, get, insert, extend, IsMap, all_held, map_beq}
use uclip_daemon.HashMap.Laws.{get-insert}
use uclip_daemon.HashMap.Order.{get-perm, length-perm}

module _ {ℓ} {A : Type ℓ} (p : A → Bool) where
  retain-same :
      {x y : A} (xs ys : List A)
      → x ≡ y
      → Permᴰ (retain p xs) (retain p ys)
      → Permᴰ (retain p (x ∷ xs)) (retain p (y ∷ ys))
  retain-same {x} {y} xs ys h r = elim (Bool-cases (p y)) [
    | inl k ↦ rw (ap p h ∙ k, k) (Permᴰ.cons h r)
    | inr k ↦ rw (ap p h ∙ k, k) r
  ]

  pub retain-perm : {xs ys : List A} → Permᴰ xs ys → Permᴰ (retain p xs) (retain p ys)
  retain-perm Permᴰ.nil = Permᴰ.nil
  retain-perm (Permᴰ.cons {l₁ = xs} {l₂ = ys} h r) = retain-same xs ys h (retain-perm r)
  retain-perm (Permᴰ.swap {a = x} {b = y} {a' = y'} {b' = x'} {l = zs} h k) =
      Permᴰ.trans (retain-swap x y zs)
        (retain-same (x ∷ zs) (x' ∷ zs) k (retain-same zs zs h (Permᴰ.refl (retain p zs))))
    where
      retain-swap : (x y : A) (zs : List A) → Permᴰ (retain p (x ∷ y ∷ zs)) (retain p (y ∷ x ∷ zs))
      retain-swap x y zs = elim (Bool-cases (p x)) [
        | inl a ↦ elim (Bool-cases (p y)) [
          | inl b ↦ rw (a, b) (Permᴰ.swap refl refl)
          | inr b ↦ rw (a, b) (Permᴰ.refl (x ∷ retain p zs))
        ]
        | inr a ↦ elim (Bool-cases (p y)) [
          | inl b ↦ rw (a, b) (Permᴰ.refl (y ∷ retain p zs))
          | inr b ↦ rw (a, b) (Permᴰ.refl (retain p zs))
        ]
      ]
  retain-perm (Permᴰ.trans q r) = Permᴰ.trans (retain-perm q) (retain-perm r)

module _ {ℓ κ} {K : Type ℓ} {V : Type κ} ⦃e : Eq K⦄ where
  insert-new : (k : K) (v : V) (m : HashMap K V) → get m k ≡ none → insert k v m ≡ m ++ (k, v) ∷ []
  unfolding get insert
  insert-new k v [] h = refl
  insert-new k v ((j, u) ∷ m) h = ground (arith, insert-new k v m)

  abbrev IsFresh : HashMap K V → HashMap K V → Type κ
  IsFresh acc [] = Unit
  IsFresh acc ((k, v) ∷ m) = (get acc k ≡ none) × IsFresh acc m

  IsFresh-insert :
      (k : K) (v : V) (acc m : HashMap K V)
      → get m k ≡ none
      → IsFresh acc m
      → IsFresh (insert k v acc) m
  unfolding get
  IsFresh-insert k v acc [] h f = tt
  IsFresh-insert k v acc ((j, u) ∷ m) h f = (
    ground (arith, get-insert k j v acc, f.0, e.beq_iff k j, e.beq_iff j k, h),
    IsFresh-insert k v acc m (ground (arith, h)) f.1,
  )

  extend-fresh : (acc m : HashMap K V) → IsMap m → IsFresh acc m → extend acc m ≡ acc ++ m
  unfolding extend
  extend-fresh acc [] valid f = sym (append-nil acc)
  extend-fresh acc ((k, v) ∷ m) valid f =
      extend-fresh (insert k v acc) m valid.1 (IsFresh-insert k v acc m valid.0 f.1)
      ∙ ap (λ (a : HashMap K V). a ++ m) (insert-new k v acc f.0)
      ∙ append_assoc acc ((k, v) ∷ []) m

  -- A map that is collected from the entries of another has them in the order of the visit.
  pub extend-nil : (m : HashMap K V) → IsMap m → extend [] m ≡ m
  unfolding get
  extend-nil m valid = extend-fresh [] m valid (fresh m)
    where
      fresh : (m : HashMap K V) → IsFresh [] m
      fresh [] = tt
      fresh ((k, v) ∷ m) = (refl, fresh m)

module _ {ℓ κ} {K : Type ℓ} {V : Type κ} ⦃e : Eq K⦄ ⦃f : Eq V⦄ where
  all_held-sub :
      (a b : HashMap K V)
      → IsMap a
      → ((k : K) (v : V) → get a k ≡ some v → get b k ≡ some v)
      → all_held a b ≡ true
  unfolding all_held get
  all_held-sub [] b valid sub = refl
  all_held-sub ((k, v) ∷ a) b valid sub =
      let first : get b k ≡ some v = sub k v (ground (arith, e.beq_iff k k)) in
      let rest : all_held a b ≡ true =
        all_held-sub a b valid.1 (λ j w h. sub j w (ground (arith, h, valid.0, e.beq_iff k j))) in
      rw (first, rest) (ground (arith, f.beq_iff v v))

  -- A map is equal to itself, visited in another order.
  pub map_beq-perm : {a b : HashMap K V} → Permᴰ a b → IsMap a → map_beq a b ≡ true
  unfolding map_beq
  map_beq-perm {a} {b} r valid =
      let held : all_held a b ≡ true =
        all_held-sub a b valid (λ k v h. sym (get-perm k r valid) ∙ h) in
      rw (length-perm r, eqb_refl (length b), held) refl
