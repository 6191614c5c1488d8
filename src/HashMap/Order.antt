-- ===== src/HashMap/Order.antt =====
-- Maps visited in another order.

use mathlib.Core.List.Permᴰ.{Permᴰ}
use uclip_daemon.Base.{◌≡◌, refl, ap, ◌∙◌, List, arith, length, All, subst}
use uclip_daemon.Base.Eq.{Eq}
use uclip_daemon.HashMap.{HashMap, get, IsMap}

module _ {ℓ} {A : Type ℓ} where
  pub length-perm : {a b : List A} → Permᴰ a b → length a ≡ length b
  length-perm Permᴰ.nil = refl
  length-perm (Permᴰ.cons h p) = ground (arith, length-perm p)
  length-perm (Permᴰ.swap h k) = refl
  length-perm (Permᴰ.trans p q) = length-perm p ∙ length-perm q

module _ {ℓ} {A : Type ℓ} (P : A → Type 0) where
  pub All-perm : {a b : List A} → Permᴰ a b → All P a → All P b
  All-perm Permᴰ.nil h = tt
  All-perm (Permᴰ.cons p r) h = (subst P p h.0, All-perm r h.1)
  All-perm (Permᴰ.swap p q) h = (subst P q h.1.0, (subst P p h.0, h.1.1))
  All-perm (Permᴰ.trans p q) h = All-perm q (All-perm p h)

module _ {ℓ κ} {K : Type ℓ} {V : Type κ} ⦃e : Eq K⦄ where
  abbrev SameMap : HashMap K V → HashMap K V → Type (ℓ ⊔ κ)
  SameMap a b = IsMap b × ((k : K) → get a k ≡ get b k)

  same-perm : {a b : HashMap K V} → Permᴰ a b → IsMap a → SameMap a b
  unfolding get
  same-perm Permᴰ.nil h = (tt, λ k. refl)
  same-perm (Permᴰ.cons {a = x} {b = y} p r) h =
      let s : SameMap _ _ = same-perm r h.1 in
      ((ground (arith, s.1 x.0), s.0), λ k. ground (arith, s.1 k))
  same-perm (Permᴰ.swap {a = x} {b = y} {a' = y'} {b' = x'} {l = l} p q) h = (
    ground (arith, e.beq_iff x.0 y.0, e.beq_iff y'.0 x'.0, e.beq_iff x'.0 y'.0),
    λ k. ground (
      arith,
      e.beq_iff x.0 k,
      e.beq_iff y.0 k,
      e.beq_iff y.0 x.0,
      e.beq_iff x'.0 k,
      e.beq_iff y'.0 k,
      ap (λ (z : K × V). z.0) p,
      ap (λ (z : K × V). z.0) q,
    ),
  )
  same-perm (Permᴰ.trans p q) h =
      let s : SameMap _ _ = same-perm p h in
      let t : SameMap _ _ = same-perm q s.0 in (t.0, λ k. s.1 k ∙ t.1 k)

  -- A map that is visited in another order answers every lookup as before.
  pub get-perm : {a b : HashMap K V} (k : K) → Permᴰ a b → IsMap a → get a k ≡ get b k
  get-perm k p h = (same-perm p h).1 k

  pub IsMap-perm : {a b : HashMap K V} → Permᴰ a b → IsMap a → IsMap b
  IsMap-perm p h = (same-perm p h).0
