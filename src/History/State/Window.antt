-- ===== src/History/State/Window.antt =====
-- src/clipboard/history.rs: the bounded history beside a history that evicts nothing.
use uclip_daemon.Base.{
  ℕ, zero, suc, ◌+◌, ◌-◌, ◌^◌, ◌%◌, ◌<◌, ◌≡◌, refl, sym, ap, ◌∙◌, List, [], ◌∷◌, ◌++◌, none, some,
  arith, drop, drop-nil, last, length, length-append, length-drop, trim_front, trim_front-drop,
  drop-append, Bool-cases, Option-cases, inl, inr, if◌then◌else◌,
}
use uclip_daemon.Config.{max_history}
use uclip_daemon.History.Content.{Blobs, BlobOrder, ClipboardContent, from_blobs}
use uclip_daemon.History.State.{
  SystemTime, ClipState, latest, is_repeat, push_entry, add_content, add_grouped,
}
use uclip_daemon.History.State.Reads.{new_entry}

-- The copies of a session, each with the time at which it is stored.
pub add_all : BlobOrder → ClipState → List (Blobs × SystemTime) → ClipState
add_all it s [] = s
add_all it s ((blobs, now) ∷ copies) = add_all it (add_grouped it s blobs now).0 copies

-- The specification: nothing is ever evicted.
pub push_unbounded : ClipState → ClipboardContent → SystemTime → ClipState
push_unbounded s content now = record {
  entries = s.entries ++ new_entry s content now ∷ [];
  next_id = (s.next_id + 1) % 2 ^ 64;
}

pub add_unbounded : BlobOrder → ClipState → Blobs → SystemTime → ClipState
add_unbounded it s blobs now = elim (from_blobs it blobs) [
  | none ↦ s
  | some content ↦ if is_repeat (latest s) content then s else push_unbounded s content now
]

pub add_all_unbounded : BlobOrder → ClipState → List (Blobs × SystemTime) → ClipState
add_all_unbounded it s [] = s
add_all_unbounded it s ((blobs, now) ∷ copies) =
    add_all_unbounded it (add_unbounded it s blobs now) copies

module _ {ℓ} {A : Type ℓ} where
  -- The last `max` members.
  abbrev pub suffix : ℕ → List A → List A
  suffix max xs = drop (length xs - max) xs

  drop-suc : (n m : ℕ) (x : A) (xs : List A) → suc n ≡ m → drop n xs ≡ drop m (x ∷ xs)
  drop-suc n m x xs h = ap (λ (k : ℕ). drop k (x ∷ xs)) h

  drop-drop : (m n : ℕ) (xs : List A) → drop m (drop n xs) ≡ drop (n + m) xs
  drop-drop m zero xs = ap (λ (k : ℕ). drop k xs) (omega arith)
  drop-drop zero (suc n) [] = sym (drop-nil (suc n + 0))
  drop-drop (suc m) (suc n) [] = sym (drop-nil (suc n + suc m))
  drop-drop m (suc n) (x ∷ xs) = drop-drop m n xs ∙ drop-suc (n + m) (suc n + m) x xs (omega arith)

  last-drop : (n : ℕ) (xs : List A) → n < length xs → last (drop n xs) ≡ last xs
  last-drop zero xs h = refl
  last-drop (suc n) [] h = absurd (omega arith)
  last-drop (suc n) (x ∷ []) h = absurd (omega arith)
  last-drop (suc n) (x ∷ y ∷ xs) h = last-drop n (y ∷ xs) (omega arith)

  trim_front-suffix :
      (max : ℕ) (xs : List A) (x : A)
      → trim_front max (suffix max xs ++ x ∷ []) ≡ suffix max (xs ++ x ∷ [])
  trim_front-suffix max xs x =
      let k : ℕ = length xs - max in
      let joined : drop k xs ++ x ∷ [] ≡ drop k (xs ++ x ∷ []) =
        sym (drop-append k xs (x ∷ []) (omega arith)) in
      trim_front-drop max (drop k xs ++ x ∷ [])
      ∙ ap (λ (l : List A). drop (length l - max) l) joined
      ∙ drop-drop (length (drop k (xs ++ x ∷ [])) - max) k (xs ++ x ∷ [])
      ∙ ap (λ (n : ℕ). drop n (xs ++ x ∷ []))
          (omega (arith, length-append xs (x ∷ []), length-drop k (xs ++ x ∷ [])))

  last-suffix : (max : ℕ) (xs : List A) → 0 < max → last (suffix max xs) ≡ last xs
  last-suffix max [] h = ap last (drop-nil (0 - max))
  last-suffix max (x ∷ xs) h = last-drop (suc (length xs) - max) (x ∷ xs) (omega arith)

-- The history is the last `max_history` entries of the unbounded one, with the same counter.
pub record Tracks (s u : ClipState) : Type 0 where
  pub window : s.entries ≡ suffix max_history u.entries
  pub counter : s.next_id ≡ u.next_id

module _ (it : BlobOrder) where
  Tracks-push :
      (s u : ClipState) (content : ClipboardContent) (now : SystemTime)
      → Tracks s u
      → Tracks (push_entry s content now).0 (push_unbounded u content now)
  unfolding push_entry push_unbounded
  Tracks-push s u content now t = record {
    window =
        rw (t.window, t.counter)
          (trim_front-suffix max_history u.entries (new_entry u content now));
    counter = rw t.counter;
  }

  Tracks-add :
      (s u : ClipState) (blobs : Blobs) (now : SystemTime)
      → Tracks s u
      → Tracks (add_grouped it s blobs now).0 (add_unbounded it u blobs now)
  Tracks-add s u blobs now t =
      let same : latest s ≡ latest u =
        unfold latest in ap last t.window ∙ last-suffix max_history u.entries (omega arith) in
      elim (Option-cases (from_blobs it blobs)) [
        | inl e ↦ unfold add_grouped add_unbounded in rw (e, add_grouped, add_unbounded) t
        | inr (c, e) ↦ elim (Bool-cases (is_repeat (latest u) c)) [
          | inl r ↦
              unfold add_grouped add_unbounded add_content in
              rw (e, add_grouped, add_unbounded, add_content, same, r) t
          | inr r ↦
              unfold add_grouped add_unbounded add_content in
              rw (e, add_grouped, add_unbounded, add_content, same, r) (Tracks-push s u c now t)
        ]
      ]

  -- Whatever the copies, the bounded history holds exactly the last `max_history` entries of the
  -- history that evicts nothing, and assigns the same ids.
  pub add_all-Tracks :
      (copies : List (Blobs × SystemTime)) (s u : ClipState)
      → Tracks s u
      → Tracks (add_all it s copies) (add_all_unbounded it u copies)
  unfolding add_all add_all_unbounded
  add_all-Tracks [] s u t = t
  add_all-Tracks ((blobs, now) ∷ copies) s u t =
      add_all-Tracks copies (add_grouped it s blobs now).0 (add_unbounded it u blobs now)
        (Tracks-add s u blobs now t)
