-- ===== src/Mime/Sound.antt =====
-- src/mime.rs: the members of what `pick_mimes` returns.
use uclip_daemon.Base.{
  ℕ, zero, suc, ◌≤◌, ◌<◌, ◌≡◌, refl, sym, ◌∙◌, ◌⊎◌, String, List, [], ◌∷◌, ◌++◌, Bool, true, false,
  ◌&&◌, ◌||◌, not, retain, take, length, All, All-take, arith, length-take, take_of_length-le,
}
use uclip_daemon.Base.Eq.{string_eq, ◌==◌, contains}
use uclip_daemon.Config.{preferred_text_mimes, supported_binary_mimes, max_mimes_per_selection}
use uclip_daemon.Mime.{is_text_mime, pick_mimes}
use uclip_daemon.Mime.Picked.{nub, wanted, pick_mimes-wanted, contains-append}
use text.Mathlib.TextEquality.{eq_iff}

-- No type twice.
abbrev pub Distinct : List String → Type 0
Distinct [] = Unit
Distinct (x ∷ xs) = (contains xs x ≡ false) × Distinct xs

contains-retain :
    (p : String → Bool) (xs : List String) (y : String)
    → contains (retain p xs) y ≡ (contains xs y && p y)
contains-retain p [] y = refl
contains-retain p (x ∷ xs) y = ground (arith, contains-retain p xs y, eq_iff x y)

retain-Distinct : (p : String → Bool) (xs : List String) → Distinct xs → Distinct (retain p xs)
retain-Distinct p [] h = tt
retain-Distinct p (x ∷ xs) h = ground (arith, retain-Distinct p xs h.1, contains-retain p xs x)

nub-Distinct : (xs : List String) → Distinct (nub xs)
nub-Distinct [] = tt
nub-Distinct (x ∷ xs) = (
  ground (arith, contains-retain (λ y. not (y == x)) (nub xs) x, eq_iff x x),
  retain-Distinct (λ y. not (y == x)) (nub xs) (nub-Distinct xs),
)

contains-nub : (xs : List String) (y : String) → contains (nub xs) y ≡ contains xs y
contains-nub [] y = refl
contains-nub (x ∷ xs) y = ground (
  arith,
  contains-retain (λ z. not (z == x)) (nub xs) y,
  contains-nub xs y,
  eq_iff x y,
  eq_iff y x,
)

contains-take :
    (n : ℕ) (xs : List String) (y : String) → contains xs y ≡ false → contains (take n xs) y ≡ false
contains-take zero xs y h = refl
contains-take (suc n) [] y h = refl
contains-take (suc n) (x ∷ xs) y h = ground (arith, contains-take n xs y)

take-Distinct : (n : ℕ) (xs : List String) → Distinct xs → Distinct (take n xs)
take-Distinct zero xs h = tt
take-Distinct (suc n) [] h = tt
take-Distinct (suc n) (x ∷ xs) h = (contains-take n xs x h.0, take-Distinct n xs h.1)

-- A type that may be requested: offered, and text or a supported binary type.
abbrev pub IsWanted : List String → String → Type 0
IsWanted ms m =
    (contains ms m ≡ true) × ((is_text_mime m ≡ true) ⊎ (contains supported_binary_mimes m ≡ true))

module _ (P : String → Type 0) where
  All-of_contains : (xs : List String) → ((y : String) → contains xs y ≡ true → P y) → All P xs
  All-of_contains [] h = tt
  All-of_contains (x ∷ xs) h =
      (h x (ground (arith, eq_iff x x)), All-of_contains xs (λ y m. h y (ground arith)))

  All_at : (xs : List String) (y : String) → All P xs → contains xs y ≡ true → P y
  All_at [] y h m = absurd (ground arith)
  All_at (x ∷ xs) y h m = ground (arith, All_at xs y h.1, eq_iff x y)

preferred_are_text : (y : String) → contains preferred_text_mimes y ≡ true → is_text_mime y ≡ true
unfolding is_text_mime
preferred_are_text y =
    All_at (λ m. is_text_mime m ≡ true) preferred_text_mimes y
      (refl, (refl, (refl, (refl, (refl, (refl, (refl, (refl, tt))))))))

module _ (ms supported : List String) (y : String) where
  contains-parts :
      (preferred : List String)
      → (contains preferred y ≡ true → is_text_mime y ≡ true)
      → contains
          (retain (contains ms) preferred
            ++ (retain is_text_mime ms ++ retain (contains ms) supported))
          y
        ≡ (contains ms y && (is_text_mime y || contains supported y))
  contains-parts preferred h = ground (
    arith,
    contains-append (retain (contains ms) preferred)
        (retain is_text_mime ms ++ retain (contains ms) supported) y,
    contains-append (retain is_text_mime ms) (retain (contains ms) supported) y,
    contains-retain (contains ms) preferred y,
    contains-retain is_text_mime ms y,
    contains-retain (contains ms) supported y,
  )

  wanted_split :
      (contains ms y && (is_text_mime y || contains supported y)) ≡ true
      → (contains ms y ≡ true) × ((is_text_mime y ≡ true) ⊎ (contains supported y ≡ true))
  wanted_split h = ground arith

  wanted_join :
      (contains ms y ≡ true) × ((is_text_mime y ≡ true) ⊎ (contains supported y ≡ true))
      → (contains ms y && (is_text_mime y || contains supported y)) ≡ true
  wanted_join h = ground arith

short_take : (n : ℕ) (xs : List String) → length (take n xs) < n → take n xs ≡ xs
short_take n xs h = take_of_length-le n xs (omega (arith, length-take n xs))

contains-wanted :
    (ms : List String) (y : String)
    → contains (nub (wanted ms)) y
      ≡ (contains ms y && (is_text_mime y || contains supported_binary_mimes y))
contains-wanted ms y =
    contains-nub (wanted ms) y
    ∙ contains-parts ms supported_binary_mimes y preferred_text_mimes (preferred_are_text y)

-- At most `max_mimes_per_selection` types are requested, none of them twice, and each one was
-- offered and is text or a supported binary type.
pub pick_mimes_sound :
    (mime_types : List String)
    → (length (pick_mimes mime_types) ≤ max_mimes_per_selection)
      × Distinct (pick_mimes mime_types)
      × All (IsWanted mime_types) (pick_mimes mime_types)
pick_mimes_sound ms = rw (pick_mimes-wanted ms) (
  omega (arith, length-take 4 (nub (wanted ms))),
  take-Distinct 4 _ (nub-Distinct (wanted ms)),
  All-take (IsWanted ms) 4 _ (
      All-of_contains (IsWanted ms) (nub (wanted ms))
        (λ y h. wanted_split ms supported_binary_mimes y (sym (contains-wanted ms y) ∙ h))),
)

-- Unless `max_mimes_per_selection` types are requested, every offered type that is text or
-- supported is among them.
pub pick_mimes_complete :
    (mime_types : List String) (m : String)
    → length (pick_mimes mime_types) < max_mimes_per_selection
    → IsWanted mime_types m
    → contains (pick_mimes mime_types) m ≡ true
pick_mimes_complete ms m few wants =
    let whole : take 4 (nub (wanted ms)) ≡ nub (wanted ms) =
      short_take 4 (nub (wanted ms)) (rw (← pick_mimes-wanted ms) few) in
    rw (pick_mimes-wanted ms, whole, contains-wanted ms m)
      (wanted_join ms supported_binary_mimes m wants)
