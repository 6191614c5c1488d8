-- ===== src/Mime/Picked.antt =====
-- src/mime.rs: a specification of `pick_mimes`, as one list without repetitions.
use uclip_daemon.Base.{
  ◌≡◌, refl, sym, ap, ◌∙◌, String, List, [], ◌∷◌, ◌++◌, append_assoc, append-nil, Bool, true, ◌&&◌,
  ◌||◌, not, none, some, find, retain, take, arith, if◌then◌else◌, Bool-cases, inl, inr,
}
use uclip_daemon.Base.Eq.{string_eq, ◌==◌, contains}
use uclip_daemon.Config.{preferred_text_mimes, supported_binary_mimes, max_mimes_per_selection}
use uclip_daemon.Mime.{is_text_mime, push_new, push_found, pick_listed, pick_text, pick_mimes}
use text.Mathlib.TextEquality.{eq_iff}

-- The first occurrence of each member.
abbrev pub nub : List String → List String
nub [] = []
nub (x ∷ xs) = x ∷ retain (λ y. not (y == x)) (nub xs)

-- What is wanted of an offer, in priority order, repetitions included.
abbrev pub wanted : List String → List String
wanted mime_types =
    retain (contains mime_types) preferred_text_mimes
    ++ (retain is_text_mime mime_types ++ retain (contains mime_types) supported_binary_mimes)

push_all : List String → List String → List String
push_all picked [] = picked
push_all picked (m ∷ rest) = push_all (push_new picked m) rest

push_all-append : (p xs ys : List String) → push_all p (xs ++ ys) ≡ push_all (push_all p xs) ys
unfolding push_all
push_all-append p [] ys = refl
push_all-append p (x ∷ xs) ys = push_all-append (push_new p x) xs ys

find-contains :
    (m : String) (xs : List String)
    → find (λ x. x == m) xs ≡ (if contains xs m then some m else none)
find-contains m [] = refl
find-contains m (x ∷ xs) = ground (arith, find-contains m xs, eq_iff x m)

pick_listed-push_all :
    (ms ls p : List String) → pick_listed ms ls p ≡ push_all p (retain (contains ms) ls)
unfolding pick_listed push_all push_found
pick_listed-push_all ms [] p = refl
pick_listed-push_all ms (l ∷ ls) p =
    rw (find-contains l ms)
      (ground (arith, pick_listed-push_all ms ls p, pick_listed-push_all ms ls (push_new p l)))

pick_text-push_all : (ms p : List String) → pick_text ms p ≡ push_all p (retain is_text_mime ms)
unfolding pick_text push_all push_new
pick_text-push_all [] p = refl
pick_text-push_all (m ∷ ms) p =
    ground (arith, pick_text-push_all ms p, pick_text-push_all ms (p ++ m ∷ []))

module _ (q r s : String → Bool) (joined : (y : String) → (q y && r y) ≡ s y) where
  retain-retain : (xs : List String) → retain q (retain r xs) ≡ retain s xs
  retain-retain [] = refl
  retain-retain (x ∷ xs) = ground (arith, joined x, retain-retain xs)

retain_all : (xs : List String) → retain (λ y. true) xs ≡ xs
retain_all [] = refl
retain_all (x ∷ xs) = ap (◌∷◌ x) (retain_all xs)

pub contains-append :
    (xs ys : List String) (y : String) → contains (xs ++ ys) y ≡ (contains xs y || contains ys y)
contains-append [] ys y = refl
contains-append (x ∷ xs) ys y = ground (arith, contains-append xs ys y)

push_all-nub : (p xs : List String) → push_all p xs ≡ p ++ retain (λ y. not (contains p y)) (nub xs)
unfolding push_all push_new
push_all-nub p [] = sym (append-nil p)
push_all-nub p (x ∷ xs) = elim (Bool-cases (contains p x)) [
  | inl old ↦
      rw (old, push_all-nub p xs)
        (ap (◌++◌ p) (
          sym (
            retain-retain (λ y. not (contains p y)) (λ y. not (y == x)) (λ y. not (contains p y))
              (λ y. ground (arith, eq_iff y x)) (nub xs))))
  | inr new ↦
      rw (new, push_all-nub (p ++ x ∷ []) xs, append_assoc)
        (ap (λ (l : List String). p ++ x ∷ l)
          (sym (
            retain-retain (λ y. not (contains p y)) (λ y. not (y == x))
              (λ y. not (contains (p ++ x ∷ []) y))
              (λ y. ground (arith, contains-append p (x ∷ []) y, eq_iff y x, eq_iff x y))
              (nub xs))))
]

module _ (ms preferred supported : List String) where
  picked-nub :
      pick_listed ms supported (pick_text ms (pick_listed ms preferred []))
      ≡ nub (
          retain (contains ms) preferred
          ++ (retain is_text_mime ms ++ retain (contains ms) supported))
  picked-nub =
      rw
        (
          pick_listed-push_all ms supported,
          pick_text-push_all ms,
          pick_listed-push_all ms preferred,
        )
        (sym (push_all-append _ _ _)
          ∙ sym (push_all-append [] _ _)
          ∙ push_all-nub [] _
          ∙ retain_all (nub _))

-- `pick_mimes` requests the first `max_mimes_per_selection` of the wanted types: the preferred ones
-- that were offered, in the order of preference, then the other text types in the order of the
-- offer, then the supported binary types that were offered; each type once.
pub pick_mimes-wanted :
    (mime_types : List String)
    → pick_mimes mime_types ≡ take max_mimes_per_selection (nub (wanted mime_types))
unfolding pick_mimes
pick_mimes-wanted ms =
    ap (take max_mimes_per_selection) (picked-nub ms preferred_text_mimes supported_binary_mimes)
