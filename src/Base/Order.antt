-- ===== src/Base/Order.antt =====
-- `str` comparison: lexicographic in the code points, which for UTF-8 is the order of the bytes.
use Prim.Native.Nat.{ℕ}
use Prim.Native.Char.{code}
use Prim.Native.String.{String}
use mathlib.Core.Path.{◌≡◌, refl, ap₂}
use mathlib.Core.Logic.{◌⊎◌, inl, inr}
use mathlib.Core.Bool.{Bool, true, false, ◌&&◌, ◌||◌}
use mathlib.Core.List.{List, [], ◌∷◌}
use native.Mathlib.Omega.{arith}
use text.Mathlib.TextEquality.{Char-path}
use uclip_daemon.Base.Tests.{ltb, eqb}

abbrev pub codes : String → List ℕ
codes String.[] = []
codes (String.◌∷◌ c s) = code c ∷ codes s

pub codes-injective : (s t : String) → codes s ≡ codes t → s ≡ t
codes-injective String.[] String.[] h = refl
codes-injective String.[] (String.◌∷◌ d t) h = cc
codes-injective (String.◌∷◌ c s) String.[] h = cc
codes-injective (String.◌∷◌ c s) (String.◌∷◌ d t) h =
    ap₂ String.◌∷◌ (Char-path c d (cc)) (codes-injective s t (cc))

abbrev pub lex_leb : List ℕ → List ℕ → Bool
lex_leb [] ys = true
lex_leb (x ∷ xs) [] = false
lex_leb (x ∷ xs) (y ∷ ys) = ltb x y || (eqb x y && lex_leb xs ys)

pub lex_leb_refl : (xs : List ℕ) → lex_leb xs xs ≡ true
lex_leb_refl [] = refl
lex_leb_refl (x ∷ xs) = ground (arith, lex_leb_refl xs)

pub lex_leb_total : (xs ys : List ℕ) → (lex_leb xs ys ≡ true) ⊎ (lex_leb ys xs ≡ true)
lex_leb_total [] ys = inl refl
lex_leb_total (x ∷ xs) [] = inr refl
lex_leb_total (x ∷ xs) (y ∷ ys) = ground (arith, lex_leb_total xs ys)

pub lex_leb_trans :
    (xs ys zs : List ℕ) → lex_leb xs ys ≡ true → lex_leb ys zs ≡ true → lex_leb xs zs ≡ true
lex_leb_trans [] ys zs h k = refl
lex_leb_trans (x ∷ xs) [] zs h k = cc
lex_leb_trans (x ∷ xs) (y ∷ ys) [] h k = cc
lex_leb_trans (x ∷ xs) (y ∷ ys) (z ∷ zs) h k = ground (arith, lex_leb_trans xs ys zs)

pub lex_leb_antisym : (xs ys : List ℕ) → lex_leb xs ys ≡ true → lex_leb ys xs ≡ true → xs ≡ ys
lex_leb_antisym [] [] h k = refl
lex_leb_antisym [] (y ∷ ys) h k = cc
lex_leb_antisym (x ∷ xs) [] h k = cc
lex_leb_antisym (x ∷ xs) (y ∷ ys) h k = ground (arith, lex_leb_antisym xs ys)

unfoldable pub str_leb : String → String → Bool
str_leb s t = lex_leb (codes s) (codes t)

pub str_leb_total : (s t : String) → (str_leb s t ≡ true) ⊎ (str_leb t s ≡ true)
unfolding str_leb
str_leb_total s t = lex_leb_total (codes s) (codes t)

pub str_leb_trans : (s t u : String) → str_leb s t ≡ true → str_leb t u ≡ true → str_leb s u ≡ true
unfolding str_leb
str_leb_trans s t u = lex_leb_trans (codes s) (codes t) (codes u)

pub str_leb_antisym : (s t : String) → str_leb s t ≡ true → str_leb t s ≡ true → s ≡ t
unfolding str_leb
str_leb_antisym s t h k = codes-injective s t (lex_leb_antisym (codes s) (codes t) h k)
