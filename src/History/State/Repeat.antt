-- ===== src/History/State/Repeat.antt =====
-- src/clipboard/history.rs: the guard of `add_grouped` against a copy that is made again.
use uclip_daemon.Base.{
  ℕ, String, [], ◌∷◌, ◌≡◌, ◌≢◌, ◌⊎◌, refl, sym, ap, ◌∙◌, true, false, Option, none, some, retain,
  Bool-cases, Option-cases, inl, inr,
}
use uclip_daemon.Base.Eq.{string_eq}
use uclip_daemon.HashMap.{IsMap, keys}
use uclip_daemon.Text.Unique.{IsTieless}
use uclip_daemon.History.Content.{Blobs, BlobOrder, ClipboardContent, from_blobs}
use uclip_daemon.History.Content.Views.{content_beq}
use uclip_daemon.History.Content.Blobs.{is_text_entry}
use uclip_daemon.History.Content.Repeat.{by_rank, content_beq-from_blobs}
use uclip_daemon.History.Content.Unlisted.{
  as_stored, visited_last, IsUnlisted, content_beq-unlisted,
}
use uclip_daemon.Text.{Bytes}
use uclip_daemon.History.State.{
  ClipState, SystemTime, latest, is_repeat, push_entry, add_content, add_grouped,
}
use uclip_daemon.History.State.Reads.{new_entry, latest-push_entry}

some_inj : {x y : ClipboardContent} → some x ≡ some y → x ≡ y
some_inj h = cc

none_ne_some : {id : ℕ} → ◌≢◌ {A = Option ℕ} none (some id)
none_ne_some h = cc

add_grouped_cases :
    (it : BlobOrder) (s : ClipState) (blobs : Blobs) (now : SystemTime)
    → (add_grouped it s blobs now ≡ (s, none))
      ⊎ ((c : ClipboardContent) × (from_blobs it blobs ≡ some c)
          × (add_grouped it s blobs now ≡ push_entry s c now))
unfolding add_grouped add_content
add_grouped_cases it s blobs now = elim (Option-cases (from_blobs it blobs)) [
  | inl e ↦ inl (rw (e, add_grouped) refl)
  | inr (c, e) ↦ elim (Bool-cases (is_repeat (latest s) c)) [
    | inl r ↦ inl (rw (e, add_grouped, add_content, r) refl)
    | inr r ↦ inr (c, e, rw (e, add_grouped, add_content, r) refl)
  ]
]

-- A copy that returned an id was pushed.
add_grouped-stored :
    (it : BlobOrder) (s t : ClipState) (blobs : Blobs) (now : SystemTime) (id : ℕ)
    → add_grouped it s blobs now ≡ (t, some id)
    → (c : ClipboardContent) × (from_blobs it blobs ≡ some c)
      × (latest t ≡ some (new_entry s c now))
add_grouped-stored it s t blobs now id h = elim (add_grouped_cases it s blobs now) [
  | inl e ↦ absurd (none_ne_some (ap (λ (r : ClipState × Option ℕ). r.1) (sym e ∙ h)))
  | inr (c, made, e) ↦ (
    c,
    made,
    ap (λ (r : ClipState × Option ℕ). latest r.0) (sym h ∙ e) ∙ latest-push_entry s c now,
  )
]

-- A copy that was just stored is not stored again: with the same payloads, and in whatever order
-- its maps are visited the second time, it returns no id and changes nothing, unless two of its text
-- types with a payload share their rank, as two types do that are not listed.
pub add_grouped-again :
    (it it' : BlobOrder) (s t : ClipState) (blobs : Blobs) (now now' : SystemTime) (id : ℕ)
    → IsMap blobs
    → IsTieless by_rank (keys (retain is_text_entry blobs))
    → add_grouped it s blobs now ≡ (t, some id)
    → add_grouped it' t blobs now' ≡ (t, none)
unfolding add_grouped add_content is_repeat
add_grouped-again it it' s t blobs now now' id valid tieless h =
    let (c, made, stored) = add_grouped-stored it s t blobs now id h in
    elim (Option-cases (from_blobs it' blobs)) [
      | inl e ↦ rw (e, add_grouped) refl
      | inr (c', e) ↦
          let seen : is_repeat (latest t) c' ≡ true =
            rw (stored, is_repeat)
              (content_beq-from_blobs blobs valid tieless it it' c c' made e) in
          rw (e, add_grouped, add_content, seen) refl
    ]

-- Two text types that are not listed defeat the guard: the copy that was just stored is stored again
-- under the next id, if its maps are visited in the other order the second time.
pub add_grouped-unlisted :
    (j k : String) (b c : Bytes) (s t : ClipState) (now now' : SystemTime) (id : ℕ)
    → j ≢ k
    → IsUnlisted j b
    → IsUnlisted k c
    → add_grouped as_stored s ((j, b) ∷ (k, c) ∷ []) now ≡ (t, some id)
    → (add_grouped (visited_last j) t ((j, b) ∷ (k, c) ∷ []) now').1 ≡ some t.next_id
unfolding add_grouped add_content is_repeat push_entry
add_grouped-unlisted j k b c s t now now' id distinct h g first =
    let (x, y, made, made', differ) = content_beq-unlisted j k b c distinct h g in
    let (z, made'', stored) = add_grouped-stored as_stored s t _ now id first in
    let same : z ≡ x = some_inj (sym made'' ∙ made) in
    let unseen : is_repeat (latest t) y ≡ false =
      rw (stored, is_repeat) (ap (λ (w : ClipboardContent). content_beq w y) same ∙ differ) in
    rw (made', add_grouped, add_content, unseen) refl
