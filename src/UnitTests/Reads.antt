-- ===== src/UnitTests/Reads.antt =====
-- src/clipboard/io.rs: its tests, but for the one with a payload of a mebibyte.
use uclip_daemon.History.Content.Views
use uclip_daemon.History.Content.Views.{
  html_beq, mixed_text_beq, images_beq, image_beq, text_beq, content_beq, has_text, primary_mime,
}
use uclip_daemon.Text.Utf8.{from_utf8_lossy}
use uclip_daemon.Text.Sort.{sort_by}
use uclip_daemon.HashMap.{map_beq, extend, contains_key}
use uclip_daemon.Mime.{is_text_mime}
use uclip_daemon.Base.{
  trim_front, ℕ, ◌≡◌, refl, String, List, [], ◌∷◌, Bool, true, false, ◌&&◌, retain, length, All,
}
use uclip_daemon.Base.Eq.{string_eq, nat_eq, ◌==◌}
use uclip_daemon.Base.Order.{codes}
use uclip_daemon.Text.{first_line}
use uclip_daemon.History.Content.{
  distinct_html, classify, sort_images, build_text, text_data, choose_primary, first_held,
  split_blobs, from_split, from_blobs, head,
}
use uclip_daemon.History.State.{
  get_entry, push_entry, is_repeat, add_content, add_grouped, len, latest, preview,
}
use uclip_daemon.App.{remove_offer, AppState, ReadEnd, delivers, new, push_pending_read}
use uclip_daemon.Io.{
  take_read, store_blobs, read_bounded, outcome_of, note_truncated, group_read, read_all, store_all,
  ReadOutcome, stored, ignored_duplicate, drain_pending_reads,
}
use uclip_daemon.UnitTests.{in_order, noon, expect, says}

abbrev pipe_with : String → ReadEnd
pipe_with sent = delivers (codes sent)

abbrev queued : AppState → String → ℕ → AppState
queued s mime offer_id =
    push_pending_read s (record { fd = pipe_with "hello"; mime_type = mime; offer_id = offer_id })

abbrev drained : AppState → AppState × List ReadOutcome
drained s = drain_pending_reads in_order (λ o. noon) s

abbrev is_stored : ReadOutcome → Bool
is_stored (stored id m) = true
is_stored _ = false

abbrev is_ignored : ReadOutcome → Bool
is_ignored (ignored_duplicate m) = true
is_ignored _ = false

unfoldable groups_aliases_into_single_entry : Bool
groups_aliases_into_single_entry =
    let state = queued new "text/plain;charset=utf-8" 1 in
    let state = queued (queued (queued state "text/plain" 1) "TEXT" 1) "STRING" 1 in
    let (state, outcomes) = drained state in
    length (retain is_stored outcomes) == 1
    && (len state.clipboard == 1
        && expect (latest state.clipboard) (λ entry. says (preview entry) "hello"))

unfoldable ignores_consecutive_duplicate_copy : Bool
ignores_consecutive_duplicate_copy =
    let (state, first) = drained (queued new "text/plain" 1) in
    let (state, second) = drained (queued state "text/plain" 2) in
    expect (head first) is_stored && (expect (head second) is_ignored && len state.clipboard == 1)

-- They pass.
tests_pass :
    All
      (λ (b : Bool). b ≡ true)
      (groups_aliases_into_single_entry ∷ ignores_consecutive_duplicate_copy ∷ [])
unfolding groups_aliases_into_single_entry ignores_consecutive_duplicate_copy add_grouped
    add_content is_repeat latest push_entry len get_entry preview trim_front from_blobs from_split
    split_blobs first_held choose_primary text_data build_text sort_images classify distinct_html
    is_text_mime contains_key extend sort_by from_utf8_lossy content_beq map_beq first_line
    drain_pending_reads store_all read_all push_pending_read group_read note_truncated outcome_of
    read_bounded store_blobs take_read remove_offer Views.preview
tests_pass = (refl, (refl, tt))
