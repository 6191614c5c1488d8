-- ===== src/History/State/Reads.antt =====
-- src/clipboard/history.rs: what `get`, `latest` and `len` return after a change.
use uclip_daemon.Base.{
  ℕ, zero, suc, ◌-◌, ◌≤◌, ◌<◌, ◌≡◌, refl, ap, List, [], ◌∷◌, ◌++◌, Bool, true, false, not, ◌&&◌,
  none, some, arith, All, retain, drop, find, last, last-append, length, length-append, eqb,
  eqb_iff, eqb→ne, trim_front-drop, Bool-cases, Option-cases, inl, inr, if◌then◌else◌, ◌⊎◌,
}
use uclip_daemon.Config.{max_history}
use uclip_daemon.HashMap.Laws.{is_some}
use uclip_daemon.History.Content.{Blobs, BlobOrder, ClipboardContent, from_blobs}
use uclip_daemon.History.State.{
  SystemTime, ClipboardEntry, ClipState, len, latest, get_entry, remove, is_repeat, push_entry,
  add_content, add_grouped,
}
use uclip_daemon.History.State.Valid.{Increasing, IsValid}

abbrev pub with_id : ℕ → ClipboardEntry → Bool
with_id j e = eqb e.id j

find-append :
    (j : ℕ) (es : List ClipboardEntry) (e : ClipboardEntry)
    → find (with_id j) (es ++ e ∷ []) ≡ (
        if is_some (find (with_id j) es)
        then find (with_id j) es
        else if eqb e.id j
        then some e
        else none)
find-append j [] e = refl
find-append j (f ∷ es) e = ground (arith, find-append j es e)

-- No entry has an id outside the bounds of all ids.
find_above :
    (n j : ℕ) (es : List ClipboardEntry)
    → All (λ (e : ClipboardEntry). e.id < n) es
    → n ≤ j
    → find (with_id j) es ≡ none
find_above n j [] h k = refl
find_above n j (e ∷ es) h k = ground (arith, find_above n j es h.1 k)

pub find_under :
    (n j : ℕ) (es : List ClipboardEntry)
    → All (λ (e : ClipboardEntry). n < e.id) es
    → j ≤ n
    → find (with_id j) es ≡ none
find_under n j [] h k = refl
find_under n j (e ∷ es) h k = ground (arith, find_under n j es h.1 k)

-- The entry that a push drops: the oldest, if the history is full.
abbrev oldest_is : ℕ → List ClipboardEntry → Bool
oldest_is j [] = false
oldest_is j (e ∷ es) = eqb e.id j

abbrev pub evicts : ClipState → ℕ → Bool
evicts s j = eqb (length s.entries) max_history && oldest_is j s.entries

abbrev pub new_entry : ClipState → ClipboardContent → SystemTime → ClipboardEntry
new_entry s content now = record { id = s.next_id; timestamp = now; content = content }

find-trim :
    (j max : ℕ) (es : List ClipboardEntry) (e : ClipboardEntry)
    → Increasing es
    → All (λ (f : ClipboardEntry). f.id < e.id) es
    → length es ≤ suc max
    → find (with_id j) (drop (length (es ++ e ∷ []) - suc max) (es ++ e ∷ [])) ≡ (
        if eqb e.id j
        then some e
        else if eqb (length es) (suc max) && oldest_is j es
        then none
        else find (with_id j) es)
find-trim j max [] e inc low fits = let z : 1 - suc max ≡ 0 = omega arith in rw z (ground arith)
find-trim j max (f ∷ es) e inc low fits = elim (Bool-cases (eqb (length (f ∷ es)) (suc max))) [
  | inl full ↦
      let one : suc (length (es ++ e ∷ [])) - suc max ≡ 1 =
        omega (arith, length-append es (e ∷ []), (eqb_iff _ _).0 full) in
      rw (one, full)
        (ground (
          arith,
          find-append j es e,
          find_above e.id j es low.1,
          find_under f.id j es inc.0,
          eqb_iff e.id j,
          eqb_iff f.id j,
        ))
  | inr room ↦
      let nothing : suc (length (es ++ e ∷ [])) - suc max ≡ 0 =
        omega (arith, length-append es (e ∷ []), eqb→ne _ _ room) in
      rw (nothing, room) (ground (arith, find-append j (f ∷ es) e, find_above e.id j (f ∷ es) low))
]

last-drop :
    (n : ℕ) (es : List ClipboardEntry) (e : ClipboardEntry)
    → n ≤ length es
    → last (drop n (es ++ e ∷ [])) ≡ some e
last-drop zero es e h = last-append es e
last-drop (suc n) [] e h = absurd (omega arith)
last-drop (suc n) (f ∷ es) e h = last-drop n es e (omega arith)

pub latest-push_entry :
    (s : ClipState) (content : ClipboardContent) (now : SystemTime)
    → latest (push_entry s content now).0 ≡ some (new_entry s content now)
unfolding latest push_entry
latest-push_entry s content now =
    let e = new_entry s content now in
    rw (trim_front-drop max_history (s.entries ++ e ∷ [])) (
      last-drop (length (s.entries ++ e ∷ []) - max_history) s.entries e
        (omega (arith, length-append s.entries (e ∷ []))))

module _ (s : ClipState) (valid : IsValid s) where
  pub get_entry-push_entry :
      (content : ClipboardContent) (now : SystemTime) (j : ℕ)
      → get_entry (push_entry s content now).0 j ≡ (
          if eqb s.next_id j
          then some (new_entry s content now)
          else if evicts s j
          then none
          else get_entry s j)
  unfolding get_entry push_entry
  get_entry-push_entry content now j =
      rw (trim_front-drop max_history (s.entries ++ new_entry s content now ∷ [])) (
        find-trim j 999 s.entries (new_entry s content now) valid.increasing valid.below
          valid.bounded)

  -- In a valid history, a copy that is stored gets the next id, becomes the latest entry and can be read by its id;
  -- every other id reads as before, but for the oldest entry of a full history, which is gone.
  pub get_entry-add_grouped :
      (it : BlobOrder) (blobs : Blobs) (now : SystemTime) (content : ClipboardContent)
      → from_blobs it blobs ≡ some content
      → is_repeat (latest s) content ≡ false
      → ((add_grouped it s blobs now).1 ≡ some s.next_id)
        × (latest (add_grouped it s blobs now).0 ≡ some (new_entry s content now))
        × ((j : ℕ)
            → get_entry (add_grouped it s blobs now).0 j ≡ (
                if eqb s.next_id j
                then some (new_entry s content now)
                else if evicts s j
                then none
                else get_entry s j))
  get_entry-add_grouped it blobs now content made fresh =
      let pushed : add_grouped it s blobs now ≡ push_entry s content now =
        unfold add_grouped add_content in rw (made, add_grouped, add_content, fresh) in
      rw pushed (
        (unfold push_entry in refl),
        latest-push_entry s content now,
        get_entry-push_entry content now,
      )

  -- Where no id is returned nothing has changed: the copy had no payload, or repeats the latest.
  pub add_grouped_ignored :
      (it : BlobOrder) (blobs : Blobs) (now : SystemTime)
      → (add_grouped it s blobs now).1 ≡ none
      → ((add_grouped it s blobs now).0 ≡ s)
        × ((from_blobs it blobs ≡ none)
            ⊎ ((c : ClipboardContent) × (from_blobs it blobs ≡ some c)
                × (is_repeat (latest s) c ≡ true)))
  unfolding add_grouped add_content push_entry
  add_grouped_ignored it blobs now h = elim (Option-cases (from_blobs it blobs)) [
    | inl e ↦ (rw (e, add_grouped), inl e)
    | inr (c, e) ↦ elim (Bool-cases (is_repeat (latest s) c)) [
      | inl r ↦ (rw (e, add_grouped, add_content, r), inr (c, e, r))
      | inr r ↦ absurd (ground arith)
    ]
  ]

-- Filtering out one id.
abbrev without : ℕ → List ClipboardEntry → List ClipboardEntry
without id = retain (λ (e : ClipboardEntry). not (eqb e.id id))

find-without :
    (id j : ℕ) (es : List ClipboardEntry)
    → find (with_id j) (without id es) ≡ (if eqb id j then none else find (with_id j) es)
find-without id j [] = ground arith
find-without id j (e ∷ es) = ground (arith, find-without id j es)

without_absent :
    (id : ℕ) (es : List ClipboardEntry) → find (with_id id) es ≡ none → without id es ≡ es
without_absent id [] h = refl
without_absent id (e ∷ es) h = ground (arith, without_absent id es)

length-without :
    (id : ℕ) (es : List ClipboardEntry)
    → Increasing es
    → suc (length (without id es))
      ≡ (if is_some (find (with_id id) es) then length es else suc (length es))
length-without id [] inc = refl
length-without id (e ∷ es) inc = elim (Bool-cases (eqb e.id id)) [
  | inl here ↦ rw here (
      ap suc (
        ap length (
          without_absent id es
            (find_under e.id id es inc.0 (omega (arith, (eqb_iff _ _).0 here))))))
  | inr other ↦ rw other (ground (arith, length-without id es inc.1))
]

module _ (s : ClipState) (valid : IsValid s) where
  -- In a valid history, `remove` says whether the id was there; it takes away that one entry and no other.
  pub remove_lem :
      (id : ℕ)
      → ((remove s id).1 ≡ is_some (get_entry s id))
        × (suc (len (remove s id).0) ≡ (if is_some (get_entry s id) then len s else suc (len s)))
        × ((j : ℕ) → get_entry (remove s id).0 j ≡ (if eqb id j then none else get_entry s j))
        × ((remove s id).0.next_id ≡ s.next_id)
  unfolding remove get_entry len
  remove_lem id = (
    ground (arith, length-without id s.entries valid.increasing),
    length-without id s.entries valid.increasing,
    λ j. find-without id j s.entries,
    refl,
  )
