-- ===== src/Tests/Repeats.antt =====
-- The theorems on a copy that is made again, at concrete copies.
use uclip_daemon.Base.{ℕ, ◌≡◌, ◌≢◌, refl, String, [], ◌∷◌, Option, none, some, false, ap, retain}
use uclip_daemon.Base.Eq.{string_eq}
use uclip_daemon.Base.Order.{str_leb}
use uclip_daemon.HashMap.{keys, get, insert, contains_key, extend}
use uclip_daemon.Text.Sort.{sort_by, insert_sorted}
use uclip_daemon.Text.Unique.{IsTieless}
use uclip_daemon.Mime.{is_text_mime}
use uclip_daemon.History.Content.{
  Blobs, ClipboardContent, text_data, text_content, from_blobs, from_split, split_blobs, first_held,
  choose_primary, build_text, sort_images, classify, rank,
}
use uclip_daemon.History.Content.Blobs.{is_text_entry}
use uclip_daemon.History.Content.Repeat.{by_rank}
use uclip_daemon.History.Content.Unlisted.{as_stored, visited_last, IsUnlisted}
use uclip_daemon.History.State
use uclip_daemon.History.State.{ClipState, latest, is_repeat, push_entry, add_content, add_grouped}
use uclip_daemon.History.State.Valid.{new-IsValid}
use uclip_daemon.History.State.Reads.{get_entry-add_grouped}
use uclip_daemon.History.State.Repeat.{add_grouped-again, add_grouped-unlisted}
use uclip_daemon.Tests.{in_order, noon, caption_blobs, caption_blobs-IsMap, caption, caption_lem}

abbrev one_copy : ClipState
one_copy = (add_grouped in_order State.new caption_blobs noon).0

first_caption : is_repeat (latest State.new) caption ≡ false
unfolding latest is_repeat
first_caption = refl

caption_stored : add_grouped in_order State.new caption_blobs noon ≡ (one_copy, some 1)
caption_stored =
    ap (λ (o : Option ℕ). (one_copy, o))
      (get_entry-add_grouped State.new new-IsValid in_order caption_blobs noon caption caption_lem
        first_caption).0

caption-IsTieless : IsTieless by_rank (keys (retain is_text_entry caption_blobs))
unfolding is_text_mime
caption-IsTieless = (tt, tt)

add_grouped-again_example : add_grouped in_order one_copy caption_blobs noon ≡ (one_copy, none)
add_grouped-again_example =
    add_grouped-again in_order in_order State.new one_copy caption_blobs noon noon 1
      caption_blobs-IsMap caption-IsTieless caption_stored

one-IsUnlisted : IsUnlisted "text/x-moz-url" (104 ∷ [])
unfolding is_text_mime rank
one-IsUnlisted = (refl, refl, refl)

another-IsUnlisted : IsUnlisted "text/csv" (105 ∷ [])
unfolding is_text_mime rank
another-IsUnlisted = (refl, refl, refl)

distinct_types : ◌≢◌ {A = String} "text/x-moz-url" "text/csv"
distinct_types h = cc

abbrev notes : Blobs
notes = ("text/x-moz-url", 104 ∷ []) ∷ ("text/csv", 105 ∷ []) ∷ []

abbrev note : ClipboardContent
note = text_content (text_data as_stored notes "text/csv")

note_made : from_blobs as_stored notes ≡ some note
unfolding from_blobs from_split split_blobs first_held choose_primary build_text sort_images
    classify is_text_mime get insert contains_key extend sort_by insert_sorted str_leb
note_made = refl

first_note : is_repeat (latest State.new) note ≡ false
unfolding latest is_repeat
first_note = refl

abbrev noted : ClipState
noted = (add_grouped as_stored State.new notes noon).0

note_stored : add_grouped as_stored State.new notes noon ≡ (noted, some 1)
note_stored =
    ap (λ (o : Option ℕ). (noted, o))
      (get_entry-add_grouped State.new new-IsValid as_stored notes noon note note_made first_note).0

add_grouped-unlisted_example :
    (add_grouped (visited_last "text/x-moz-url") noted notes noon).1 ≡ some noted.next_id
add_grouped-unlisted_example =
    add_grouped-unlisted "text/x-moz-url" "text/csv" (104 ∷ []) (105 ∷ []) State.new noted noon noon
      1 distinct_types one-IsUnlisted another-IsUnlisted note_stored
