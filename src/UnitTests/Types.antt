-- ===== src/UnitTests/Types.antt =====
-- src/daemon/types.rs: its tests, but for those of the JSON form and of a text of ten thousand
-- characters.
use uclip_daemon.History.Content.Views
use uclip_daemon.Text.{join, decimal, first_line}
use uclip_daemon.History.Content.Views.{
  html_beq, mixed_text_beq, images_beq, image_beq, text_beq, content_beq, has_text, primary_mime,
}
use uclip_daemon.Text.Utf8.{from_utf8_lossy}
use uclip_daemon.Text.Sort.{sort_by}
use uclip_daemon.Mime.{is_text_mime}
use uclip_daemon.History.Content.{
  classify, sort_images, build_text, text_data, choose_primary, first_held, split_blobs, from_split,
  from_blobs,
}
use uclip_daemon.Base.{trim_front, ℕ, ◌≡◌, refl, [], ◌∷◌, Bool, true, false, not, ◌&&◌, Option, All}
use uclip_daemon.Base.Eq.{string_eq, nat_eq, ◌==◌}
use uclip_daemon.Base.Order.{codes}
use uclip_daemon.HashMap.{map_beq, contains_key, extend}
use uclip_daemon.Error.{message, entry_not_found}
use uclip_daemon.History.State.{
  mime_type, is_text, preview, push_entry, latest, is_repeat, add_content, ClipState, new,
  get_entry, add_entry, add_grouped,
}
use uclip_daemon.Daemon.Types.{
  kind_of, EntryKind, text, image, mixed, EntrySummary, summary, error, response_of_error,
  clamp_limit, max_list_limit, truncate_preview,
}
use uclip_daemon.UnitTests.{in_order, noon, expect, says, has_part}

abbrev is_kind : EntryKind → EntryKind → Bool
is_kind text text = true
is_kind image image = true
is_kind mixed mixed = true
is_kind _ _ = false

-- The summary of the entry with the id that was returned.
abbrev summarised : ClipState × Option ℕ → (EntrySummary → Bool) → Bool
summarised (state, id) test =
    expect id (λ id. expect (get_entry state id) (λ entry. test (summary entry)))

unfoldable summary_from_text_image_mixed_variants : Bool
summary_from_text_image_mixed_variants =
    let (state, text_id) = add_entry in_order new "text/plain" (codes "hello") noon in
    let (state', img_id) =
      add_entry in_order state "image/png" (0 ∷ 0 ∷ 0 ∷ 0 ∷ 0 ∷ 0 ∷ 0 ∷ 0 ∷ []) noon in
    let blobs =
      extend [] (("text/plain", codes "caption") ∷ ("image/png", 1 ∷ 1 ∷ 1 ∷ 1 ∷ []) ∷ []) in
    summarised (state, text_id)
      (λ s.
        is_kind s.kind text
        && (s.primary_mime == "text/plain" && (says s.preview "hello" && s.has_text)))
    && (summarised (state', img_id)
          (λ s. is_kind s.kind image && (says s.preview "<8 bytes of image/png>" && not s.has_text))
        && summarised (add_grouped in_order new blobs noon)
            (λ s. is_kind s.kind mixed && (s.has_text && has_part s.preview (codes "caption"))))

-- The last two lines of `preview_truncation_is_char_safe`.
unfoldable preview_truncation_of_multibyte_text : Bool
preview_truncation_of_multibyte_text =
    says (truncate_preview (codes "héllo🌍world") 5) "héllo"
    && says (truncate_preview (codes "abc") 10) "abc"

unfoldable clipboard_error_maps_to_error_response : Bool
clipboard_error_maps_to_error_response = elim (response_of_error (entry_not_found 99)) [
  | error message ↦ has_part message (codes "99")
  | _ ↦ false
]

unfoldable clamp_limit_bounds_list_paging : Bool
clamp_limit_bounds_list_paging = clamp_limit 50 == 50 && clamp_limit 10000 == max_list_limit

-- They pass.
tests_pass :
    All
      (λ (b : Bool). b ≡ true)
      (summary_from_text_image_mixed_variants ∷ preview_truncation_of_multibyte_text
        ∷ clipboard_error_maps_to_error_response ∷ clamp_limit_bounds_list_paging ∷ [])
unfolding summary_from_text_image_mixed_variants preview_truncation_of_multibyte_text
    clipboard_error_maps_to_error_response clamp_limit_bounds_list_paging add_grouped add_entry
    add_content is_repeat latest push_entry get_entry preview is_text trim_front from_blobs
    from_split split_blobs first_held choose_primary text_data build_text sort_images classify
    is_text_mime contains_key extend sort_by from_utf8_lossy primary_mime has_text content_beq
    map_beq first_line decimal join mime_type summary kind_of truncate_preview response_of_error
    message clamp_limit Views.preview
tests_pass = (refl, (refl, (refl, (refl, tt))))
