-- ===== src/History/Content/Unlisted.antt =====
-- src/clipboard/history.rs: two text types that are not listed stay in the order of the visit.
use mathlib.Core.List.Permᴰ
use mathlib.Core.List.Permᴰ.{Permᴰ}
use uclip_daemon.Base.{
  ◌≡◌, ◌≢◌, refl, ap, ◌∙◌, String, List, [], ◌∷◌, Bool, true, false, ◌&&◌, some, is_empty, arith,
  if◌then◌else◌, Bool-cases, inl, inr,
}
use uclip_daemon.Base.Eq.{string_eq, nat_eq, beq_refl, list_beq, ◌==◌}
use uclip_daemon.HashMap.{insert, keys, map_beq}
use uclip_daemon.Text.{Bytes}
use uclip_daemon.Text.Sort.{sort_by, insert_sorted}
use uclip_daemon.Mime.{is_text_mime}
use uclip_daemon.History.Content.{
  Blobs, BlobOrder, TextData, ClipboardContent, text_content, usize_max, rank, split_blobs,
  text_data, sort_images, classify, from_split, from_blobs,
}
use uclip_daemon.History.Content.Views.{text_beq, content_beq, html_beq, bytes_eq}
use uclip_daemon.History.Content.Blobs.{build_text-total}
use uclip_daemon.History.Content.Repeat.{by_rank}

abbrev pub as_stored : BlobOrder
as_stored = record { order = λ m. m; order_perm = λ m. Permᴰ.refl m }

-- Of two entries, the one under `j` is visited last.
unfoldable pub last_of_two : String → Blobs → Blobs
last_of_two j (x ∷ y ∷ []) = if x.0 == j then y ∷ x ∷ [] else x ∷ y ∷ []
last_of_two j m = m

pub last_of_two-perm : (j : String) (m : Blobs) → Permᴰ (last_of_two j m) m
unfolding last_of_two
last_of_two-perm j [] = Permᴰ.nil
last_of_two-perm j (x ∷ []) = Permᴰ.refl (x ∷ [])
last_of_two-perm j (x ∷ y ∷ []) = elim (Bool-cases (x.0 == j)) [
  | inl e ↦ rw e (Permᴰ.swap refl refl)
  | inr e ↦ rw e (Permᴰ.refl (x ∷ y ∷ []))
]
last_of_two-perm j (x ∷ y ∷ z ∷ m) = Permᴰ.refl (x ∷ y ∷ z ∷ m)

abbrev pub visited_last : String → BlobOrder
visited_last j = record { order = last_of_two j; order_perm = last_of_two-perm j }

-- A text type that is not listed, with a payload.
abbrev pub IsUnlisted : String → Bytes → Type 0
IsUnlisted k b = (is_text_mime k ≡ true) × (rank k ≡ usize_max) × (is_empty b ≡ false)

module _ (j k : String) (b c : Bytes) (apart : (j == k) ≡ false) (h : IsUnlisted j b)
    (g : IsUnlisted k c) where
  abbrev two : Blobs
  two = (j, b) ∷ (k, c) ∷ []

  split_two : split_blobs two [] [] ≡ (two, [])
  unfolding split_blobs insert
  split_two = rw (h.0, h.2, g.0, g.2, apart) refl

  sorted_two : sort_by by_rank (j ∷ k ∷ []) ≡ j ∷ k ∷ []
  unfolding sort_by insert_sorted
  sorted_two = ground (arith, h.1, g.1)

  two_ne_nil : two ≢ []
  two_ne_nil q = cc

  -- The copy that is made when the types are visited in this order, both times.
  made_two :
      (it : BlobOrder) (m : Blobs)
      → it.order m ≡ two
      → it.order two ≡ two
      → (t : TextData) × (from_blobs it m ≡ some (text_content t)) × (t.offered_mimes ≡ j ∷ k ∷ [])
  unfolding from_blobs from_split classify sort_images text_data sort_by
  made_two it m o again =
      let (p, _, e) = build_text-total it two two_ne_nil in
      (
        text_data it two p,
        rw (o, split_two, e) refl,
        ap (λ (v : Blobs). sort_by by_rank (keys v)) again ∙ sorted_two,
      )

text_beq-apart :
    (t u : TextData) (j k : String)
    → (j == k) ≡ false
    → t.offered_mimes ≡ j ∷ k ∷ []
    → u.offered_mimes ≡ k ∷ j ∷ []
    → text_beq t u ≡ false
unfolding text_beq
text_beq-apart t u j k apart h g =
    let differ : list_beq t.offered_mimes u.offered_mimes ≡ false =
      ap (λ (ms : List String). list_beq ms u.offered_mimes) h
      ∙ ap (list_beq (j ∷ k ∷ [])) g
      ∙ rw apart refl in
    any_false (list_beq t.text u.text) (html_beq t.html u.html) (t.primary_mime == u.primary_mime)
      (list_beq t.offered_mimes u.offered_mimes) (map_beq t.blobs u.blobs) differ
  where
    any_false : (a b c d e : Bool) → d ≡ false → (a && b && c && d && e) ≡ false
    any_false a b c d e h = ground arith

-- Two text types with a payload that are not listed make two copies that are not equal, though
-- the payloads are the same: the visit of the map decides on the order of the offered types.
pub content_beq-unlisted :
    (j k : String) (b c : Bytes)
    → j ≢ k
    → IsUnlisted j b
    → IsUnlisted k c
    → let blobs : Blobs = (j, b) ∷ (k, c) ∷ [] in
      (x : ClipboardContent) × (y : ClipboardContent) × (from_blobs as_stored blobs ≡ some x)
      × (from_blobs (visited_last j) blobs ≡ some y)
      × (content_beq x y ≡ false)
unfolding last_of_two content_beq
content_beq-unlisted j k b c distinct h g =
    let apart : (j == k) ≡ false = ground (arith, distinct, string_eq.beq_iff j k) in
    let apart' : (k == j) ≡ false = ground (arith, distinct, string_eq.beq_iff k j) in
    let (t, made, offered) =
      made_two j k b c apart h g as_stored (two j k b c apart h g) refl refl in
    let (u, made', offered') =
      made_two k j c b apart' g h (visited_last j) ((j, b) ∷ (k, c) ∷ []) (rw (beq_refl j) refl)
        (rw apart' refl) in
    (text_content t, text_content u, made, made', text_beq-apart t u j k apart offered offered')
