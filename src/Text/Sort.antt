-- ===== src/Text/Sort.antt =====
-- The stable sorts of slices, as insertion sort.
use mathlib.Core.List.Permᴰ
use mathlib.Core.List.Permᴰ.{Permᴰ}
use uclip_daemon.Base.{
  ◌≡◌, refl, List, [], ◌∷◌, Bool, true, ◌⊎◌, inl, inr, All, arith, if◌then◌else◌, Bool-cases,
}

module _ {ℓ} {A : Type ℓ} (le : A → A → Bool) where
  unfoldable pub insert_sorted : A → List A → List A
  insert_sorted x [] = x ∷ []
  insert_sorted x (y ∷ ys) = if le x y then x ∷ y ∷ ys else y ∷ insert_sorted x ys

  unfoldable pub sort_by : List A → List A
  unfolding insert_sorted
  sort_by [] = []
  sort_by (x ∷ xs) = insert_sorted x (sort_by xs)

  insert_sorted-perm : (x : A) (xs : List A) → Permᴰ (insert_sorted x xs) (x ∷ xs)
  unfolding insert_sorted
  insert_sorted-perm x [] = Permᴰ.refl (x ∷ [])
  insert_sorted-perm x (y ∷ ys) = elim (Bool-cases (le x y)) [
    | inl p ↦ rw p (Permᴰ.refl (x ∷ y ∷ ys))
    | inr p ↦ rw p (Permᴰ.trans (Permᴰ.cons refl (insert_sorted-perm x ys)) (Permᴰ.swap refl refl))
  ]

  pub sort_by-perm : (xs : List A) → Permᴰ (sort_by xs) xs
  unfolding sort_by
  sort_by-perm [] = Permᴰ.nil
  sort_by-perm (x ∷ xs) =
      Permᴰ.trans (insert_sorted-perm x (sort_by xs)) (Permᴰ.cons refl (sort_by-perm xs))

  -- Each member before those that follow it.
  abbrev pub IsSorted : List A → Type 0
  IsSorted [] = Unit
  IsSorted (x ∷ xs) = All (λ y. le x y ≡ true) xs × IsSorted xs

module _ {ℓ} {A : Type ℓ} (le : A → A → Bool) (P : A → Type 0) where
  insert_sorted-All : (x : A) (xs : List A) → P x → All P xs → All P (insert_sorted le x xs)
  unfolding insert_sorted
  insert_sorted-All x [] p h = (p, tt)
  insert_sorted-All x (y ∷ ys) p h = ground (arith, insert_sorted-All x ys p h.1)

  All-weaken : (Q : A → Type 0) (xs : List A) → ((a : A) → P a → Q a) → All P xs → All Q xs
  All-weaken Q [] f h = tt
  All-weaken Q (x ∷ xs) f h = (f x h.0, All-weaken Q xs f h.1)

module _ {ℓ} {A : Type ℓ} (le : A → A → Bool)
    (total : (a b : A) → (le a b ≡ true) ⊎ (le b a ≡ true))
    (trans : (a b c : A) → le a b ≡ true → le b c ≡ true → le a c ≡ true) where
  insert_sorted-IsSorted :
      (x : A) (xs : List A) → IsSorted le xs → IsSorted le (insert_sorted le x xs)
  unfolding insert_sorted
  insert_sorted-IsSorted x [] h = (tt, tt)
  insert_sorted-IsSorted x (y ∷ ys) h = elim (Bool-cases (le x y)) [
    | inl p ↦ rw p (
      (p, All-weaken le (λ z. le y z ≡ true) (λ z. le x z ≡ true) ys (λ z q. trans x y z p q) h.0),
      h,
    )
    | inr p ↦ rw p (
      insert_sorted-All le (λ z. le y z ≡ true) x ys (ground (arith, total x y)) h.0,
      insert_sorted-IsSorted x ys h.1,
    )
  ]

  pub sort_by-IsSorted : (xs : List A) → IsSorted le (sort_by le xs)
  unfolding sort_by
  sort_by-IsSorted [] = tt
  sort_by-IsSorted (x ∷ xs) = insert_sorted-IsSorted x (sort_by le xs) (sort_by-IsSorted xs)
