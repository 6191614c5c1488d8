-- ===== src/Tests/Copies.antt =====
-- The theorems on types, payloads, reads and restores, at concrete copies.
use uclip_daemon.History.State
use uclip_daemon.History.State.Valid.{new-IsValid}
use uclip_daemon.Io.Copies.{without_offers, with_copies, copy_outcomes}
use uclip_daemon.Base.{
  ◌++◌, ℕ, ◌≡◌, ◌≤◌, refl, inl, String, List, [], ◌∷◌, true, some, length, take, All, arith, ltb,
}
use uclip_daemon.Base.Eq.{string_eq, nat_eq, contains}
use uclip_daemon.HashMap.{get, insert, extend}
use uclip_daemon.Config.{max_mimes_per_selection, max_content_bytes}
use uclip_daemon.Mime.{pick_mimes}
use uclip_daemon.Mime.Picked.{nub, wanted, pick_mimes-wanted}
use uclip_daemon.Mime.Sound.{Distinct, IsWanted, pick_mimes_sound}
use uclip_daemon.History.Content.Views.{representations, has_text, insert_images}
use uclip_daemon.History.Content.Classified.{nonempty}
use uclip_daemon.History.Content.Kept.{get-representations}
use uclip_daemon.Text.Utf8.{encode_all}
use uclip_daemon.HashMap.Laws.{is_some}
use uclip_daemon.History.Content.Decoded.{primary_mime-IsHeld, text-encode_all}
use uclip_daemon.Io.{read_bounded, read, drain_pending_reads}
use uclip_daemon.Io.Bounded.{read_bounded_lem}
use uclip_daemon.HashMap.{keys}
use uclip_daemon.History.Content.{Blobs}
use uclip_daemon.App.Echoed.{IsText, echo-IsText}
use uclip_daemon.Io.Grouping.{payloads, all_outcomes}
use uclip_daemon.Io.Offers.{own, offers_of}
use uclip_daemon.Io.Drain.{drain_pending_reads_lem}
use uclip_daemon.App.{AppState, new, delivers, content_for, restored_contents, fallback}
use uclip_daemon.App.Restore.{content_for-restored, get-restored_contents}
use uclip_daemon.Tests.{
  in_order, noon, caption_blobs, caption_blobs-IsMap, caption, caption_lem, caption_text,
  caption_text_lem,
}

-- A browser offers the type of a page twice, an unknown type, and an image.
abbrev offered : List String
offered = "text/html" ∷ "application/x-foo" ∷ "image/png" ∷ "text/html" ∷ []

pick_mimes-wanted_example : pick_mimes offered ≡ take max_mimes_per_selection (nub (wanted offered))
pick_mimes-wanted_example = pick_mimes-wanted offered

pick_mimes_sound_example :
    (length (pick_mimes offered) ≤ max_mimes_per_selection)
    × Distinct (pick_mimes offered)
    × All (IsWanted offered) (pick_mimes offered)
pick_mimes_sound_example = pick_mimes_sound offered

get-representations_example :
    get (representations caption) "image/png" ≡ nonempty (get caption_blobs "image/png")
get-representations_example =
    get-representations in_order caption_blobs caption_blobs-IsMap caption caption_lem "image/png"

png_read : nonempty (get caption_blobs "image/png") ≡ some (1 ∷ 2 ∷ 3 ∷ [])
unfolding get
png_read = refl

content_for-restored_example :
    content_for in_order (record { contents = restored_contents in_order caption }) "image/png"
    ≡ some (1 ∷ 2 ∷ 3 ∷ [])
content_for-restored_example =
    content_for-restored in_order in_order in_order caption_blobs caption "image/png"
      (1 ∷ 2 ∷ 3 ∷ []) caption_blobs-IsMap caption_lem png_read

get-restored_contents_example :
    get (restored_contents in_order caption) "STRING" ≡ some (104 ∷ 105 ∷ [])
unfolding get representations insert_images insert extend has_text fallback
get-restored_contents_example = get-restored_contents in_order caption "STRING"

primary_mime-IsHeld_example : is_some (get caption_text.blobs "text/plain") ≡ true
primary_mime-IsHeld_example =
    primary_mime-IsHeld in_order caption_text.blobs caption_text caption_text_lem

encoded : get caption_text.blobs "text/plain" ≡ some (encode_all (104 ∷ 105 ∷ []))
unfolding get encode_all
encoded = refl

text-encode_all_example : caption_text.text ≡ 104 ∷ 105 ∷ []
text-encode_all_example =
    text-encode_all in_order caption_text.blobs caption_text (104 ∷ 105 ∷ []) caption_text_lem
      (inl (omega arith), (inl (omega arith), tt)) encoded

read_bounded_lem_example :
    read_bounded (delivers (1 ∷ 2 ∷ []))
    ≡ read (take max_content_bytes (1 ∷ 2 ∷ [])) (ltb max_content_bytes 2)
read_bounded_lem_example = read_bounded_lem (1 ∷ 2 ∷ [])

-- Two types of one copy wait to be read, with the text of another copy between them.
abbrev waiting : AppState
waiting = record new {
  pending_reads =
      record { fd = delivers (104 ∷ 105 ∷ []); mime_type = "text/plain"; offer_id = 7 }
      ∷ record { fd = delivers (106 ∷ []); mime_type = "text/plain"; offer_id = 8 }
      ∷ record { fd = delivers (1 ∷ []); mime_type = "image/png"; offer_id = 7 }
      ∷ [];
}

abbrev waiting_copy : ℕ → Blobs
waiting_copy o = payloads (own o waiting.pending_reads) []

drain_pending_reads_lem_example : drain_pending_reads in_order (λ o. noon) waiting ≡ (
  record waiting {
    pending_reads = [];
    offers = without_offers (offers_of [] waiting.pending_reads) [];
    clipboard =
        with_copies in_order
          (λ o. noon)
          waiting_copy
          (offers_of [] waiting.pending_reads)
          State.new;
  },
  all_outcomes waiting.pending_reads
      ++ copy_outcomes in_order
          (λ o. noon)
          waiting_copy
          (offers_of [] waiting.pending_reads)
          State.new,
)
drain_pending_reads_lem_example =
    drain_pending_reads_lem in_order (λ o. noon) waiting new-IsValid (omega arith)

contains-keys : (m : Blobs) (k : String) → contains (keys m) k ≡ is_some (get m k)
unfolding get
contains-keys [] k = refl
contains-keys ((j, v) ∷ m) k = ground (arith, contains-keys m k)

caption_text_there : has_text caption ≡ true
unfolding has_text
caption_text_there = refl

echo-IsText_example : All IsText (pick_mimes (keys (restored_contents in_order caption)))
echo-IsText_example =
    echo-IsText in_order caption (keys (restored_contents in_order caption)) caption_text_there
      (contains-keys (restored_contents in_order caption))
