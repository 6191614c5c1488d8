-- ===== src/History/State/Valid.antt =====
-- src/clipboard/history.rs: the invariant of `ClipState`, on ids and length.
use uclip_daemon.Base.{
  ℕ, zero, suc, ◌+◌, ◌^◌, ◌≤◌, ◌<◌, List, [], ◌∷◌, ◌++◌, Bool, not, arith, All, All-append,
  All-drop, All-retain, retain, drop, length, length-retain-le, eqb, trim_front-drop,
  length-trim_front, Bool-cases, Option-cases, inl, inr,
}
use native.Mathlib.Nat.{mod-eq_of_lt}
use uclip_daemon.Config.{max_history}
use uclip_daemon.History.Content.{Blobs, BlobOrder, ClipboardContent, from_blobs}
use uclip_daemon.History.State.{
  SystemTime, ClipboardEntry, ClipState, new, latest, remove, is_repeat, push_entry, add_content,
  add_grouped,
}

abbrev pub Increasing : List ClipboardEntry → Type 0
Increasing [] = Unit
Increasing (e ∷ es) = All (λ (f : ClipboardEntry). e.id < f.id) es × Increasing es

pub record IsValid (s : ClipState) : Type 0 where
  pub increasing : Increasing s.entries
  pub below : All (λ (e : ClipboardEntry). e.id < s.next_id) s.entries
  pub bounded : length s.entries ≤ max_history

pub new-IsValid : IsValid new
new-IsValid = record { increasing = tt; below = tt; bounded = omega arith }

Increasing-append :
    (es : List ClipboardEntry) (e : ClipboardEntry)
    → Increasing es
    → All (λ (f : ClipboardEntry). f.id < e.id) es
    → Increasing (es ++ e ∷ [])
Increasing-append [] e h k = (tt, tt)
Increasing-append (f ∷ es) e h k = (
  All-append (λ (g : ClipboardEntry). f.id < g.id) es (e ∷ []) h.0 (k.0, tt),
  Increasing-append es e h.1 k.1,
)

pub Increasing-drop : (n : ℕ) (es : List ClipboardEntry) → Increasing es → Increasing (drop n es)
Increasing-drop zero es h = h
Increasing-drop (suc n) [] h = tt
Increasing-drop (suc n) (e ∷ es) h = Increasing-drop n es h.1

Increasing-retain :
    (p : ClipboardEntry → Bool) (es : List ClipboardEntry)
    → Increasing es
    → Increasing (retain p es)
Increasing-retain p [] h = tt
Increasing-retain p (e ∷ es) h = elim (Bool-cases (p e)) [
  | inl k ↦
      rw k (All-retain (λ (f : ClipboardEntry). e.id < f.id) p es h.0, Increasing-retain p es h.1)
  | inr k ↦ rw k (Increasing-retain p es h.1)
]

All-weaken :
    (n m : ℕ) (es : List ClipboardEntry)
    → n ≤ m
    → All (λ (e : ClipboardEntry). e.id < n) es
    → All (λ (e : ClipboardEntry). e.id < m) es
All-weaken n m [] le h = tt
All-weaken n m (e ∷ es) le h = (omega arith, All-weaken n m es le h.1)

module _ (s : ClipState) (valid : IsValid s) where
  pub remove-IsValid : (id : ℕ) → IsValid (remove s id).0
  unfolding remove
  remove-IsValid id = record {
    increasing = Increasing-retain _ s.entries valid.increasing;
    below = All-retain _ _ s.entries valid.below;
    bounded = omega (
      arith,
      valid.bounded,
      length-retain-le (λ (e : ClipboardEntry). not (eqb e.id id)) s.entries,
    );
  }

  pub push_entry-IsValid :
      (content : ClipboardContent) (now : SystemTime)
      → s.next_id + 1 < 2 ^ 64
      → IsValid (push_entry s content now).0
  unfolding push_entry
  push_entry-IsValid content now room =
      let e : ClipboardEntry = record { id = s.next_id; timestamp = now; content = content } in
      record {
        increasing =
            rw (trim_front-drop max_history (s.entries ++ e ∷ []))
              (Increasing-drop _ _ (Increasing-append s.entries e valid.increasing valid.below));
        below = rw (trim_front-drop max_history (s.entries ++ e ∷ [])) (
            rw (mod-eq_of_lt room) (
              All-drop _ _ (s.entries ++ e ∷ []) (
                All-append _ s.entries (e ∷ [])
                  (All-weaken s.next_id (s.next_id + 1) s.entries (omega arith) valid.below)
                  (omega arith, tt))));
        bounded = omega (arith, length-trim_front max_history (s.entries ++ e ∷ []));
      }

  add_content-IsValid :
      (content : ClipboardContent) (now : SystemTime)
      → s.next_id + 1 < 2 ^ 64
      → IsValid (add_content s content now).0
  unfolding add_content
  add_content-IsValid content now room = elim (Bool-cases (is_repeat (latest s) content)) [
    | inl e ↦ rw (e, add_content) valid
    | inr e ↦ rw (e, add_content) (push_entry-IsValid content now room)
  ]

  -- Adding a copy keeps a valid history valid, as long as the id counter does not wrap.
  pub add_grouped-IsValid :
      (it : BlobOrder) (blobs : Blobs) (now : SystemTime)
      → s.next_id + 1 < 2 ^ 64
      → IsValid (add_grouped it s blobs now).0
  unfolding add_grouped
  add_grouped-IsValid it blobs now room = elim (Option-cases (from_blobs it blobs)) [
    | inl e ↦ rw (e, add_grouped) valid
    | inr (c, e) ↦ rw (e, add_grouped) (add_content-IsValid c now room)
  ]
