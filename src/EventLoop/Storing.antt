-- ===== src/EventLoop/Storing.antt =====
-- src/clipboard/io.rs and src/main.rs: while the copies of a round are stored, the history runs
-- ahead of the snapshot.
use native.Mathlib.Nat.{mod-eq_of_lt}
use uclip_daemon.Io.Copies.{outcome_of-push_entry}
use uclip_daemon.Base.{
  ℕ, ◌+◌, ◌-◌, ◌^◌, ◌≤◌, ◌<◌, ◌≡◌, ◌≢◌, ◌⊎◌, refl, sym, ap, subst, ◌∙◌, List, [], ◌∷◌, ◌++◌, map,
  append_assoc, Bool, true, false, none, String, is_empty, drop, length, length-append, trim_front,
  trim_front-drop, ltb, ltb→lt, arith, All, All-append, Bool-cases, Option-cases, inl, inr,
  if◌then◌else◌,
}
use uclip_daemon.Base.Eq.{nat_eq}
use uclip_daemon.Config.{max_history}
use uclip_daemon.HashMap.{HashMap, get, remove}
use uclip_daemon.History.Content.{Blobs, BlobOrder, ClipboardContent, from_blobs, unwrap_or}
use uclip_daemon.History.Content.Views.{primary_mime}
use uclip_daemon.History.State.{
  SystemTime, ClipState, ClipboardEntry, latest, is_repeat, push_entry, add_content, add_grouped,
}
use uclip_daemon.History.State.Valid.{IsValid, Increasing, push_entry-IsValid}
use uclip_daemon.History.State.Reads.{new_entry}
use uclip_daemon.App.{AppState, remove_offer}
use uclip_daemon.Io.Stored.{next_id-add_grouped}
use uclip_daemon.Io.{
  ReadOutcome, stored, ignored_duplicate, label, outcome_of, store_blobs, store_all,
}
use uclip_daemon.Daemon.Types.{EntrySummary, summary}
use uclip_daemon.EventLoop.Behind.{
  IsSuffix, IsSuffix-tail, IsWithout, Lags, Lags-weaken, Lags-evict, Lags-waits, Lags-skipped,
  IsBehind,
}
use uclip_daemon.EventLoop.Listed.{IsWithout-older}

add_grouped_cases :
    (it : BlobOrder) (s : ClipState) (blobs : Blobs) (now : SystemTime)
    → (add_grouped it s blobs now ≡ (s, none))
      ⊎ ((c : ClipboardContent) × (add_grouped it s blobs now ≡ push_entry s c now))
unfolding add_grouped add_content
add_grouped_cases it s blobs now = elim (Option-cases (from_blobs it blobs)) [
  | inl e ↦ inl (rw (e, add_grouped) refl)
  | inr (c, e) ↦ elim (Bool-cases (is_repeat (latest s) c)) [
    | inl old ↦ inl (rw (e, add_grouped, add_content, old) refl)
    | inr fresh ↦ inr (c, rw (e, add_grouped, add_content, fresh) refl)
  ]
]

trim_room :
    (max : ℕ) (all : List ClipboardEntry) (e : ClipboardEntry)
    → length all < max
    → trim_front max (all ++ e ∷ []) ≡ all ++ e ∷ []
trim_room max all e h =
    let none_over : length (all ++ e ∷ []) - max ≡ 0 = omega (arith, length-append all (e ∷ [])) in
    trim_front-drop max (all ++ e ∷ []) ∙ ap (λ (k : ℕ). drop k (all ++ e ∷ [])) none_over

trim_full :
    (max : ℕ) (all : List ClipboardEntry) (e : ClipboardEntry)
    → length all ≡ max
    → trim_front max (all ++ e ∷ []) ≡ drop 1 (all ++ e ∷ [])
trim_full max all e h =
    let one_over : length (all ++ e ∷ []) - max ≡ 1 = omega (arith, length-append all (e ∷ [])) in
    trim_front-drop max (all ++ e ∷ []) ∙ ap (λ (k : ℕ). drop k (all ++ e ∷ [])) one_over

module _ (s : ClipState) (snap : List EntrySummary) (os : List ReadOutcome) (c : ClipboardContent)
    (now : SystemTime) (room : s.next_id + 1 < 2 ^ 64) (valid : IsValid s)
    (bounded : length snap ≤ max_history) where
  abbrev e : ClipboardEntry
  e = new_entry s c now

  abbrev pushed : ClipState
  pushed = (push_entry s c now).0

  abbrev StillBehind : Type 0
  StillBehind = IsBehind pushed snap (os ++ stored s.next_id (primary_mime c) ∷ [])

  advanced : pushed.next_id ≡ s.next_id + 1
  unfolding push_entry
  advanced = mod-eq_of_lt room

  new-IsWithout :
      (id : ℕ) (all : List ClipboardEntry)
      → id < s.next_id
      → IsWithout id all
      → IsWithout id (all ++ e ∷ [])
  new-IsWithout id all old w =
      All-append (λ (f : ClipboardEntry). f.id ≢ id) all (e ∷ []) w ((λ same. omega arith), tt)

  -- The new entry waits behind the others.
  behind :
      (seen unseen : List ClipboardEntry)
      → pushed.entries ≡ seen ++ unseen
      → IsSuffix (map summary seen) snap
      → Lags (s.next_id + 1) pushed.entries (os ++ stored s.next_id (primary_mime c) ∷ []) unseen
      → StillBehind
  behind seen unseen split listed lags = record {
    valid = push_entry-IsValid s valid c now room;
    seen = seen;
    unseen = unseen;
    split = split;
    listed = listed;
    bounded = bounded;
    lags =
        subst
          (λ (k : ℕ). Lags k pushed.entries (os ++ stored s.next_id (primary_mime c) ∷ []) unseen)
          (sym advanced) lags;
  }

  with_room :
      (seen unseen : List ClipboardEntry)
      → length s.entries < max_history
      → s.entries ≡ seen ++ unseen
      → IsSuffix (map summary seen) snap
      → Lags s.next_id s.entries os unseen
      → StillBehind
  unfolding push_entry
  with_room seen unseen few split listed lags =
      let kept : pushed.entries ≡ s.entries ++ e ∷ [] = trim_room max_history s.entries e few in
      behind seen (unseen ++ e ∷ [])
        (kept
          ∙ ap (λ (xs : List ClipboardEntry). xs ++ e ∷ []) split
          ∙ append_assoc seen unseen (e ∷ []))
        listed
        (Lags-waits (s.next_id + 1) pushed.entries e (primary_mime c) (
          Lags-weaken s.next_id (s.next_id + 1) (omega arith) s.entries pushed.entries
            (λ id old w. subst (IsWithout id) (sym kept) (new-IsWithout id s.entries old w)) lags))

  evicted :
      (f : ClipboardEntry) (others : List ClipboardEntry)
      → length s.entries ≡ max_history
      → s.entries ≡ f ∷ others
      → pushed.entries ≡ others ++ e ∷ []
  unfolding push_entry
  evicted f others full split =
      trim_full max_history s.entries e full
      ∙ ap (λ (xs : List ClipboardEntry). drop 1 (xs ++ e ∷ [])) split

  when_full :
      (seen unseen : List ClipboardEntry)
      → length s.entries ≡ max_history
      → s.entries ≡ seen ++ unseen
      → IsSuffix (map summary seen) snap
      → Lags s.next_id s.entries os unseen
      → StillBehind
  when_full (f ∷ seen) unseen full split listed lags =
      let kept : pushed.entries ≡ (seen ++ unseen) ++ e ∷ [] =
        evicted f (seen ++ unseen) full split in
      behind seen (unseen ++ e ∷ []) (kept ∙ append_assoc seen unseen (e ∷ []))
        (IsSuffix-tail (summary f) (map summary seen) snap listed)
        (Lags-waits (s.next_id + 1) pushed.entries e (primary_mime c) (
          Lags-weaken s.next_id (s.next_id + 1) (omega arith) s.entries pushed.entries
            (λ id old w.
              subst (IsWithout id) (sym kept)
                (new-IsWithout id (seen ++ unseen) old (subst (IsWithout id) split w).1))
            lags))
  when_full [] (f ∷ unseen) full split listed lags =
      let kept : pushed.entries ≡ unseen ++ e ∷ [] = evicted f unseen full split in
      let older : f.id < s.next_id =
        (subst (All (λ (g : ClipboardEntry). g.id < s.next_id)) split valid.below).0 in
      let others : IsWithout f.id unseen =
        IsWithout-older f.id unseen (subst Increasing split valid.increasing).0 in
      behind [] (unseen ++ e ∷ []) kept listed (
        Lags-waits (s.next_id + 1) pushed.entries e (primary_mime c) (
          Lags-evict s.next_id (s.next_id + 1) (omega arith) s.entries pushed.entries
            (λ id old w.
              subst (IsWithout id) (sym kept)
                (new-IsWithout id unseen old (subst (IsWithout id) split w).1))
            older (subst (IsWithout f.id) (sym kept) (new-IsWithout f.id unseen older others))
            lags))
  when_full [] [] full split listed lags = absurd (omega (arith, ap length split))

  after_push :
      (seen unseen : List ClipboardEntry)
      → s.entries ≡ seen ++ unseen
      → IsSuffix (map summary seen) snap
      → Lags s.next_id s.entries os unseen
      → StillBehind
  after_push seen unseen split listed lags =
      elim (Bool-cases (ltb (length s.entries) max_history)) [
        | inl few ↦ with_room seen unseen (ltb→lt _ _ few) split listed lags
        | inr many ↦ when_full seen unseen (ground (arith, valid.bounded)) split listed lags
      ]

module _ (it : BlobOrder) (snap : List EntrySummary) where
  add_grouped-IsBehind :
      (s : ClipState) (blobs : Blobs) (now : SystemTime) (os : List ReadOutcome) (l : String)
      → s.next_id + 1 < 2 ^ 64
      → IsBehind s snap os
      → let (s', id) = add_grouped it s blobs now in IsBehind s' snap (os ++ outcome_of s' l id)
  unfolding push_entry
  add_grouped-IsBehind s blobs now os l room h = elim (add_grouped_cases it s blobs now) [
    | inl same ↦ rw same (
        unfold outcome_of in
        record {
          valid = h.valid;
          seen = h.seen;
          unseen = h.unseen;
          split = h.split;
          listed = h.listed;
          bounded = h.bounded;
          lags = Lags-skipped s.next_id s.entries (ignored_duplicate l) refl h.lags;
        })
    | inr (c, stored_now) ↦ rw stored_now (
        subst (λ (xs : List ReadOutcome). IsBehind (push_entry s c now).0 snap (os ++ xs))
          (sym (outcome_of-push_entry s h.valid c now l))
          (after_push s snap os c now room h.valid h.bounded h.seen h.unseen h.split h.listed
            h.lags))
  ]

  if-IsBehind :
      (b : Bool) (x y : AppState × List ReadOutcome)
      → IsBehind x.0.clipboard snap x.1
      → IsBehind y.0.clipboard snap y.1
      → let z = if b then x else y in IsBehind z.0.clipboard snap z.1
  if-IsBehind true x y h k = h
  if-IsBehind false x y h k = k

  if_room :
      (n : ℕ) (b : Bool) (x y : AppState × List ReadOutcome)
      → x.0.clipboard.next_id ≤ n
      → y.0.clipboard.next_id ≤ n
      → (if b then x else y).0.clipboard.next_id ≤ n
  if_room n true x y h k = h
  if_room n false x y h k = k

  -- Storing the copies of a round keeps the history ahead of the snapshot by what is reported.
  pub store_all-IsBehind :
      (now : ℕ → SystemTime) (order : List ℕ) (grouped : HashMap ℕ Blobs)
      (x : AppState × List ReadOutcome)
      → x.0.clipboard.next_id + length order < 2 ^ 64
      → IsBehind x.0.clipboard snap x.1
      → let (s', os') = store_all it now order grouped x in
        IsBehind s'.clipboard snap os'
        × (s'.clipboard.next_id ≤ x.0.clipboard.next_id + length order)
  unfolding store_all store_blobs remove_offer
  store_all-IsBehind now [] grouped (s, os) room h = (h, omega arith)
  store_all-IsBehind now (o ∷ order) grouped (s, os) room h =
      let blobs = unwrap_or (get grouped o) [] in
      let t : AppState = remove_offer s o in
      let kept : AppState × List ReadOutcome = (t, os) in
      let next : AppState × List ReadOutcome = store_blobs it (now o) blobs kept in
      let grown : (if is_empty blobs then kept else next).0.clipboard.next_id
          ≤ s.clipboard.next_id + 1 =
        if_room (s.clipboard.next_id + 1) (is_empty blobs) kept next (omega arith)
          (next_id-add_grouped it s.clipboard blobs (now o)) in
      let (behind, bound) =
        store_all-IsBehind now order (remove o grouped) (if is_empty blobs then kept else next)
          (omega arith)
          (if-IsBehind (is_empty blobs) kept next h
            (add_grouped-IsBehind s.clipboard blobs (now o) os (label blobs) (omega arith) h)) in
      (behind, omega arith)
