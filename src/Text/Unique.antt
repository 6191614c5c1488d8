-- ===== src/Text/Unique.antt =====
-- Sorting does not depend on the order of the input if no two of its members tie.

use mathlib.Core.List.Permᴰ.{Permᴰ}
use mathlib.Core.Path.{ap₂}
use uclip_daemon.Base.{
  ◌≡◌, refl, sym, ap, ◌∙◌, subst, List, [], ◌∷◌, Bool, true, false, ◌&&◌, ◌⊎◌, All, arith,
}
use uclip_daemon.HashMap.Order.{All-perm}
use uclip_daemon.Text.Sort.{insert_sorted, sort_by}

module _ {ℓ} {A : Type ℓ} (le : A → A → Bool) where
  -- No two members, at different places, are each before the other.
  abbrev pub IsTieless : List A → Type 0
  IsTieless [] = Unit
  IsTieless (x ∷ xs) = All (λ y. (le x y && le y x) ≡ false) xs × IsTieless xs

  tie_swap : (a b : Bool) → (a && b) ≡ false → (b && a) ≡ false
  tie_swap a b h = ground (arith, h)

  pub IsTieless-perm : {xs ys : List A} → Permᴰ xs ys → IsTieless xs → IsTieless ys
  IsTieless-perm Permᴰ.nil h = tt
  IsTieless-perm (Permᴰ.cons {a = x} {b = y} {l₂ = ys} p r) h = (
    subst (λ (z : A). All (λ w. (le z w && le w z) ≡ false) ys) p (All-perm _ r h.0),
    IsTieless-perm r h.1,
  )
  IsTieless-perm (Permᴰ.swap {a = x} {b = y} {a' = y'} {b' = x'} {l = zs} p q) h = (
    (
      sym (ap₂ (λ (v w : A). le v w && le w v) q p) ∙ tie_swap (le x y) (le y x) h.0.0,
      subst (λ (z : A). All (λ w. (le z w && le w z) ≡ false) zs) q h.1.0,
    ),
    (subst (λ (z : A). All (λ w. (le z w && le w z) ≡ false) zs) p h.0.1, h.1.1),
  )
  IsTieless-perm (Permᴰ.trans p q) h = IsTieless-perm q (IsTieless-perm p h)

module _ {ℓ} {A : Type ℓ} (le : A → A → Bool)
    (total : (a b : A) → (le a b ≡ true) ⊎ (le b a ≡ true))
    (trans : (a b c : A) → le a b ≡ true → le b c ≡ true → le a c ≡ true) where
  insert_sorted-swap :
      (x y : A) (zs : List A)
      → (le x y && le y x) ≡ false
      → insert_sorted le x (insert_sorted le y zs) ≡ insert_sorted le y (insert_sorted le x zs)
  unfolding insert_sorted
  insert_sorted-swap x y [] h = ground (arith, total x y)
  insert_sorted-swap x y (z ∷ zs) h =
      ground (arith, total x y, trans x y z, trans y x z, insert_sorted-swap x y zs h)

  pub sort_by_unique :
      {xs ys : List A} → Permᴰ xs ys → IsTieless le xs → sort_by le xs ≡ sort_by le ys
  unfolding sort_by
  sort_by_unique Permᴰ.nil h = refl
  sort_by_unique (Permᴰ.cons {b = y} {l₁ = xs} p r) h =
      ap (λ (z : A). insert_sorted le z (sort_by le xs)) p
      ∙ ap (insert_sorted le y) (sort_by_unique r h.1)
  sort_by_unique (Permᴰ.swap {a = x} {b = y} {a' = y'} {b' = x'} {l = zs} p q) h =
      insert_sorted-swap x y (sort_by le zs) h.0.0
      ∙ ap₂ (λ (v w : A). insert_sorted le v (insert_sorted le w (sort_by le zs))) q p
  sort_by_unique (Permᴰ.trans p q) h = sort_by_unique p h ∙ sort_by_unique q (IsTieless-perm le p h)
