-- ===== src/Base/Lists.antt =====
-- Lists measured by native numbers, under the library's names, and predicates on their members.
use Prim.Native.Nat.{ℕ, zero, suc, ◌+◌, ◌-◌, ◌≤◌, ◌<◌, min}
use mathlib.Core.Path.{◌≡◌, refl, sym, ap, ◌∙◌}
use mathlib.Core.Logic.{inl, inr}
use mathlib.Core.Bool.{Bool, true, false, ◌&&◌}
use mathlib.Core.List.{List, [], ◌∷◌, ◌++◌, map}
use mathlib.Core.Option.{Option, none, some}
use native.Mathlib.Omega.{arith}
use uclip_daemon.Base.Tests.{ltb, ltb→lt, Bool-cases, if◌then◌else◌}

module _ {ℓ} {A : Type ℓ} where
  abbrev pub length : List A → ℕ
  length [] = 0
  length (x ∷ xs) = suc (length xs)

  abbrev pub is_empty : List A → Bool
  is_empty [] = true
  is_empty (x ∷ xs) = false

  abbrev pub take : ℕ → List A → List A
  take zero xs = []
  take (suc n) [] = []
  take (suc n) (x ∷ xs) = x ∷ take n xs

  abbrev pub drop : ℕ → List A → List A
  drop zero xs = xs
  drop (suc n) [] = []
  drop (suc n) (x ∷ xs) = drop n xs

  abbrev pub last : List A → Option A
  last [] = none
  last (x ∷ []) = some x
  last (x ∷ y ∷ xs) = last (y ∷ xs)

  -- `find` and `retain` with a Boolean test.
  abbrev pub find : (A → Bool) → List A → Option A
  find p [] = none
  find p (x ∷ xs) = if p x then some x else find p xs

  abbrev pub retain : (A → Bool) → List A → List A
  retain p [] = []
  retain p (x ∷ xs) = if p x then x ∷ retain p xs else retain p xs

  abbrev pub all : (A → Bool) → List A → Bool
  all p [] = true
  all p (x ∷ xs) = p x && all p xs

  pub length-append : (xs ys : List A) → length (xs ++ ys) ≡ length xs + length ys
  length-append [] ys = omega arith
  length-append (x ∷ xs) ys = omega (arith, length-append xs ys)

  pub length-take : (n : ℕ) (xs : List A) → length (take n xs) ≡ min n (length xs)
  length-take zero xs = omega arith
  length-take (suc n) [] = omega arith
  length-take (suc n) (x ∷ xs) = omega (arith, length-take n xs)

  pub length-drop : (n : ℕ) (xs : List A) → length (drop n xs) ≡ length xs - n
  length-drop zero xs = omega arith
  length-drop (suc n) [] = omega arith
  length-drop (suc n) (x ∷ xs) = omega (arith, length-drop n xs)

  pub drop-append : (n : ℕ) (xs ys : List A) → n ≤ length xs → drop n (xs ++ ys) ≡ drop n xs ++ ys
  drop-append zero xs ys h = refl
  drop-append (suc n) [] ys h = absurd (omega arith)
  drop-append (suc n) (x ∷ xs) ys h = drop-append n xs ys (omega arith)

  pub take_of_length-le : (n : ℕ) (xs : List A) → length xs ≤ n → take n xs ≡ xs
  take_of_length-le (suc m) (y ∷ ys) fits = ap (◌∷◌ y) (take_of_length-le m ys (omega arith))
  take_of_length-le (suc m) [] fits = refl
  take_of_length-le zero (y ∷ ys) fits = absurd (omega arith)
  take_of_length-le zero [] fits = refl

  pub length-retain-le : (p : A → Bool) (xs : List A) → length (retain p xs) ≤ length xs
  length-retain-le p [] = omega arith
  length-retain-le p (x ∷ xs) = ground (arith, length-retain-le p xs)

  pub last-append : (xs : List A) (x : A) → last (xs ++ x ∷ []) ≡ some x
  last-append [] x = refl
  last-append (y ∷ []) x = refl
  last-append (y ∷ z ∷ xs) x = last-append (z ∷ xs) x

module _ {ℓ κ} {A : Type ℓ} {B : Type κ} where
  pub length-map : (f : A → B) (xs : List A) → length (map f xs) ≡ length xs
  length-map f [] = refl
  length-map f (x ∷ xs) = ap suc (length-map f xs)

  pub map-drop : (f : A → B) (n : ℕ) (xs : List A) → map f (drop n xs) ≡ drop n (map f xs)
  map-drop f zero xs = refl
  map-drop f (suc n) [] = refl
  map-drop f (suc n) (x ∷ xs) = map-drop f n xs

module _ {ℓ κ} {A : Type ℓ} (P : A → Type κ) where
  abbrev pub All : List A → Type κ
  All [] = Unit
  All (x ∷ xs) = P x × All xs

  pub All-append : (xs ys : List A) → All xs → All ys → All (xs ++ ys)
  All-append [] ys h k = k
  All-append (x ∷ xs) ys h k = (h.0, All-append xs ys h.1 k)

  pub All-take : (n : ℕ) (xs : List A) → All xs → All (take n xs)
  All-take zero xs h = tt
  All-take (suc n) [] h = tt
  All-take (suc n) (x ∷ xs) h = (h.0, All-take n xs h.1)

  pub All-drop : (n : ℕ) (xs : List A) → All xs → All (drop n xs)
  All-drop zero xs h = h
  All-drop (suc n) [] h = tt
  All-drop (suc n) (x ∷ xs) h = All-drop n xs h.1

  pub All-retain : (p : A → Bool) (xs : List A) → All xs → All (retain p xs)
  All-retain p [] h = tt
  All-retain p (x ∷ xs) h = ground (arith, All-retain p xs h.1)

module _ {ℓ} {A : Type ℓ} where
  -- `while xs.len() > max { xs.pop_front(); }`
  unfoldable pub trim_front : ℕ → List A → List A
  trim_front max [] = []
  trim_front max (x ∷ xs) =
      let rest = trim_front max xs in if ltb max (length (x ∷ xs)) then rest else x ∷ xs

  pub drop-nil : (n : ℕ) → ◌≡◌ {A = List A} (drop n []) []
  drop-nil zero = refl
  drop-nil (suc n) = refl

  -- What is dropped is no more than needed.
  drop_more :
      (max n : ℕ) (x : A) (xs : List A)
      → max < suc n
      → drop (suc n - max) (x ∷ xs) ≡ drop (n - max) xs
  drop_more max n x xs h =
      let e : suc n - max ≡ suc (n - max) = omega arith in ap (λ (k : ℕ). drop k (x ∷ xs)) e

  drop_none : (max n : ℕ) (xs : List A) → n ≤ max → drop (n - max) xs ≡ xs
  drop_none max n xs h = let e : n - max ≡ 0 = omega arith in ap (λ (k : ℕ). drop k xs) e

  pub trim_front-drop : (max : ℕ) (xs : List A) → trim_front max xs ≡ drop (length xs - max) xs
  unfolding trim_front
  trim_front-drop max [] = sym (drop-nil (0 - max))
  trim_front-drop max (x ∷ xs) = elim (Bool-cases (ltb max (suc (length xs)))) [
    | inl p ↦ rw p (trim_front-drop max xs ∙ sym (drop_more max (length xs) x xs (ltb→lt _ _ p)))
    | inr p ↦ rw p (sym (drop_none max (suc (length xs)) (x ∷ xs) (ground arith)))
  ]

  pub length-trim_front : (max : ℕ) (xs : List A) → length (trim_front max xs) ≡ min max (length xs)
  length-trim_front max xs =
      omega (arith, ap length (trim_front-drop max xs), length-drop (length xs - max) xs)
