-- ===== src/UnitTests/History.antt =====
-- src/clipboard/history.rs: its tests.
use uclip_daemon.Text.Utf8.{from_utf8_lossy}
use uclip_daemon.Text.Sort.{sort_by}
use uclip_daemon.Mime.{is_text_mime}
use uclip_daemon.Base.{
  All, trim_front, ℕ, ◌+◌, ◌≡◌, refl, String, List, [], ◌∷◌, Bool, true, false, not, ◌&&◌, Option,
  all, length,
}
use uclip_daemon.Base.Eq.{string_eq, nat_eq, ◌==◌}
use uclip_daemon.Base.Order.{codes}
use uclip_daemon.Text.{join, decimal, first_line, Bytes}
use uclip_daemon.Config.{supported_binary_mimes}
use uclip_daemon.HashMap.{map_beq, contains_key, extend}
use uclip_daemon.History.Content.{
  rank, distinct_html, classify, sort_images, build_text, text_data, choose_primary, first_held,
  split_blobs, from_split, from_blobs, Blobs, ClipboardContent, text_content, image_content,
  mixed_content,
}
use uclip_daemon.History.Content.Views.{
  html_beq, mixed_text_beq, images_beq, image_beq, text_beq, content_beq, has_text, offered_mimes,
  primary_mime,
}
use uclip_daemon.History.State
use uclip_daemon.History.Content.Views
use uclip_daemon.History.State.{
  is_text, push_entry, is_repeat, add_content, ClipState, ClipboardEntry, new, len, get_entry,
  latest, mime_type, preview, add_grouped, add_entry,
}
use uclip_daemon.UnitTests.{in_order, noon, expect, is_none, says}
use text.Mathlib.Text.{starts_with}

abbrev blobs : List (String × Bytes) → Blobs
blobs pairs = extend [] pairs

abbrev bytes : String → Bytes
bytes = codes

abbrev grouped : ClipState → Blobs → ClipState × Option ℕ
grouped s m = add_grouped in_order s m noon

abbrev entered : ClipState → String → Bytes → ClipState × Option ℕ
entered s mime content = add_entry in_order s mime content noon

abbrev is_text_entry : ClipboardContent → Bool
is_text_entry (text_content t) = true
is_text_entry _ = false

abbrev is_image_entry : ClipboardContent → Bool
is_image_entry (image_content i) = true
is_image_entry _ = false

abbrev is_mixed_entry : ClipboardContent → Bool
is_mixed_entry (mixed_content m) = true
is_mixed_entry _ = false

unfoldable rejects_empty_content : Bool
rejects_empty_content =
    let (state, id) = entered new "text/plain" [] in
    let (state', id') = grouped state [] in
    is_none id && (len state == 0 && (is_none id' && len state' == 0))

unfoldable groups_text_aliases_into_single_entry : Bool
groups_text_aliases_into_single_entry =
    let (state, id) = grouped new (
      blobs (
        ("text/plain;charset=utf-8", bytes "hello")
        ∷ ("text/plain", bytes "hello")
        ∷ ("TEXT", bytes "hello")
        ∷ ("STRING", bytes "hello")
        ∷ [])) in
    len state == 1
    && expect id (λ id. expect (get_entry state id) (λ entry.
      is_text_entry entry.content
      && (mime_type entry == "text/plain;charset=utf-8"
          && (says (preview entry) "hello" && length (offered_mimes entry.content) == 4))))

unfoldable rejects_consecutive_duplicates_but_allows_repeats_after_change : Bool
rejects_consecutive_duplicates_but_allows_repeats_after_change =
    let (state, first) = entered new "text/plain" (bytes "hi") in
    let (state, again) = entered state "text/plain" (bytes "hi") in
    let count = len state in
    let (state, other) = entered state "text/plain" (bytes "other") in
    let (state, later) = entered state "text/plain" (bytes "hi") in
    not (is_none first) && (is_none again && (count == 1 && not (is_none later)))

unfoldable same_bytes_different_mime_in_one_copy_are_one_entry : Bool
same_bytes_different_mime_in_one_copy_are_one_entry =
    let (state, id) =
      grouped new (blobs (("text/plain", bytes "hi") ∷ ("text/html", bytes "hi") ∷ [])) in
    not (is_none id) && len state == 1

unfoldable distinct_html_is_preserved : Bool
distinct_html_is_preserved =
    let (state, id) =
      grouped new (blobs (("text/plain", bytes "hi") ∷ ("text/html", bytes "<b>hi</b>") ∷ [])) in
    expect id (λ id. expect (get_entry state id) (λ entry. elim entry.content [
      | text_content t ↦ says t.text "hi" && expect t.html (λ html. says html "<b>hi</b>")
      | _ ↦ false
    ]))

unfoldable stores_image_as_typed_variant : Bool
stores_image_as_typed_variant =
    let (state, id) =
      grouped new (blobs (("image/png", 0 ∷ 0 ∷ 0 ∷ 0 ∷ 0 ∷ 0 ∷ 0 ∷ 0 ∷ []) ∷ [])) in
    expect id (λ id. expect (get_entry state id) (λ entry.
      is_image_entry entry.content
      && (not (is_text entry) && says (preview entry) "<8 bytes of image/png>")))

unfoldable stores_text_plus_image_as_mixed : Bool
stores_text_plus_image_as_mixed =
    let (state, id) =
      grouped new
        (blobs (("text/plain", bytes "caption") ∷ ("image/png", 1 ∷ 1 ∷ 1 ∷ 1 ∷ []) ∷ [])) in
    expect id (λ id. expect (get_entry state id) (λ entry.
      is_mixed_entry entry.content
      && (is_text entry && says (preview entry) "caption + <4 bytes of image/png>")))

unfoldable assigns_incrementing_ids_and_lookup : Bool
assigns_incrementing_ids_and_lookup =
    let (state, a) = entered new "text/plain" (bytes "a") in
    let (state, b) = entered state "text/plain" (bytes "b") in
    expect a (λ a. expect b (λ b.
      b == a + 1
      && (expect (get_entry state a) (λ entry. says (preview entry) "a")
          && expect (latest state) (λ entry. entry.id == b))))

unfoldable preview_uses_first_text_line_or_byte_summary : Bool
preview_uses_first_text_line_or_byte_summary =
    let (state, text_id) = entered new "text/plain" (bytes "first\nsecond") in
    let first =
      expect text_id (λ id. expect (get_entry state id) (λ entry. says (preview entry) "first")) in
    let (state, bin_id) = entered state "image/png" (0 ∷ 0 ∷ 0 ∷ 0 ∷ 0 ∷ 0 ∷ 0 ∷ 0 ∷ []) in
    first
    && expect bin_id
        (λ id. expect (get_entry state id) (λ entry. says (preview entry) "<8 bytes of image/png>"))

unfoldable unknown_binary_is_kept_not_dropped : Bool
unknown_binary_is_kept_not_dropped =
    let (state, id) = grouped new (blobs (("application/octet-stream", 9 ∷ 9 ∷ 9 ∷ []) ∷ [])) in
    expect id (λ id.
      expect (get_entry state id)
        (λ entry. primary_mime entry.content == "application/octet-stream"))

unfoldable supported_binary_list_is_image_only : Bool
supported_binary_list_is_image_only = all (λ m. starts_with m "image/") supported_binary_mimes

unfoldable remove_drops_entry_by_id : Bool
remove_drops_entry_by_id =
    let (state, a) = entered new "text/plain" (bytes "a") in
    let (state, b) = entered state "text/plain" (bytes "b") in
    expect a (λ a. expect b (λ b.
      let (kept, removed) = State.remove state a in
      let (same, unknown) = State.remove kept 999 in
      removed
      && (is_none (get_entry kept a)
          && (len kept == 1
              && (expect (latest kept) (λ entry. entry.id == b)
                  && (not unknown && len same == 1))))))

-- They pass.
tests_pass :
    All
      (λ (b : Bool). b ≡ true)
      (rejects_empty_content ∷ groups_text_aliases_into_single_entry
        ∷ rejects_consecutive_duplicates_but_allows_repeats_after_change
        ∷ same_bytes_different_mime_in_one_copy_are_one_entry ∷ distinct_html_is_preserved
        ∷ stores_image_as_typed_variant ∷ stores_text_plus_image_as_mixed
        ∷ assigns_incrementing_ids_and_lookup ∷ preview_uses_first_text_line_or_byte_summary
        ∷ unknown_binary_is_kept_not_dropped ∷ supported_binary_list_is_image_only
        ∷ remove_drops_entry_by_id ∷ [])
unfolding rejects_empty_content groups_text_aliases_into_single_entry
    rejects_consecutive_duplicates_but_allows_repeats_after_change
    same_bytes_different_mime_in_one_copy_are_one_entry distinct_html_is_preserved
    stores_image_as_typed_variant stores_text_plus_image_as_mixed
    assigns_incrementing_ids_and_lookup preview_uses_first_text_line_or_byte_summary
    unknown_binary_is_kept_not_dropped supported_binary_list_is_image_only remove_drops_entry_by_id
    add_grouped add_entry add_content is_repeat latest push_entry len get_entry mime_type preview
    is_text trim_front from_blobs from_split split_blobs first_held choose_primary text_data
    build_text sort_images classify distinct_html rank is_text_mime contains_key extend sort_by
    from_utf8_lossy offered_mimes primary_mime has_text content_beq map_beq first_line decimal join
    State.remove Views.preview
tests_pass = (
  refl,
  (refl, (refl, (refl, (refl, (refl, (refl, (refl, (refl, (refl, (refl, (refl, tt))))))))))),
)
