-- ===== src/Daemon/Snapshot/Paging.antt =====
-- src/daemon/snapshot.rs: a client that asks for page after page.
use uclip_daemon.Base.{
  ℕ, zero, suc, ◌+◌, ◌-◌, ◌*◌, ◌≤◌, ◌≡◌, refl, sym, ap, ◌∙◌, List, [], ◌∷◌, ◌++◌, take, drop,
  length, arith, length-take, length-drop, min, drop-nil,
}
use uclip_daemon.Daemon.Types.{EntrySummary, clamp_limit, max_list_limit}
use uclip_daemon.Daemon.Snapshot.{list_snapshot}

-- A page is never longer than the clamped limit, and is as long as what is left allows.
pub length-list_snapshot :
    (snap : List EntrySummary) (offset limit : ℕ)
    → ((list_snapshot snap offset limit).0 ≡ length snap)
      × (length (list_snapshot snap offset limit).1
          ≡ min (min limit max_list_limit) (length snap - offset))
unfolding list_snapshot clamp_limit
length-list_snapshot snap offset limit =
    (refl, omega (arith, length-take (min limit 100) (drop offset snap), length-drop offset snap))

-- The client: `n` requests, each for the page after the last.
pub pages : ℕ → List EntrySummary → ℕ → ℕ → List EntrySummary
pages zero snap offset limit = []
pages (suc n) snap offset limit =
    (list_snapshot snap offset limit).1 ++ pages n snap (offset + limit) limit

module _ {ℓ} {A : Type ℓ} where
  take-append-drop : (n : ℕ) (xs : List A) → take n xs ++ drop n xs ≡ xs
  take-append-drop zero xs = refl
  take-append-drop (suc n) [] = refl
  take-append-drop (suc n) (x ∷ xs) = ap (◌∷◌ x) (take-append-drop n xs)

  drop-add : (m n : ℕ) (xs : List A) → drop n (drop m xs) ≡ drop (m + n) xs
  drop-add zero n xs = ap (λ (k : ℕ). drop k xs) (omega arith)
  drop-add (suc m) n [] = drop-nil n ∙ sym (drop-nil (suc m + n))
  drop-add (suc m) n (x ∷ xs) = drop-add m n xs ∙ suc_of_add (m + n) (suc m + n) x xs (omega arith)
    where
      suc_of_add : (a b : ℕ) (y : A) (ys : List A) → suc a ≡ b → drop a ys ≡ drop b (y ∷ ys)
      suc_of_add a b y ys h = ap (λ (k : ℕ). drop k (y ∷ ys)) h

  drop_all : (n : ℕ) (xs : List A) → length xs ≤ n → drop n xs ≡ []
  drop_all n [] h = drop-nil n
  drop_all zero (x ∷ xs) h = absurd (omega arith)
  drop_all (suc n) (x ∷ xs) h = drop_all n xs (omega arith)

-- With a limit of at most `max_list_limit`, enough pages put together are the rest of the snapshot.
pub pages_lem :
    (n : ℕ) (snap : List EntrySummary) (offset limit : ℕ)
    → limit ≤ max_list_limit
    → length snap ≤ offset + n * limit
    → pages n snap offset limit ≡ drop offset snap
unfolding pages list_snapshot clamp_limit
pages_lem zero snap offset limit small enough = sym (drop_all offset snap (omega arith))
pages_lem (suc n) snap offset limit small enough =
    let whole : min limit 100 ≡ limit = omega arith in
    rw (whole, pages_lem n snap (offset + limit) limit small (grind arith))
      (ap (◌++◌ (take limit (drop offset snap))) (sym (drop-add offset limit snap))
        ∙ take-append-drop limit (drop offset snap))
