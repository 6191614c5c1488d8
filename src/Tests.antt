-- ===== src/Tests.antt =====
-- Inputs at which the theorems are applied: copies as a browser or an editor makes them.
mod Copies
mod Entries
mod Clients
mod Runs
mod Repeats
mod Channel
mod Systems
use mathlib.Core.List.Permᴰ
use uclip_daemon.Base.{ℕ, ◌≡◌, refl, String, List, [], ◌∷◌, Bool, Option, none, some}
use uclip_daemon.Base.Eq.{string_eq}
use uclip_daemon.HashMap.{IsMap, get, insert, contains_key, extend}
use uclip_daemon.Text.Sort.{sort_by, insert_sorted}
use uclip_daemon.Text.Utf8.{from_utf8_lossy}
use uclip_daemon.Mime.{is_text_mime}
use uclip_daemon.History.Content.{
  Blobs, BlobOrder, TextData, ClipboardContent, text_content, mixed_content, from_blobs, from_split,
  split_blobs, first_held, choose_primary, text_data, build_text, sort_images, classify,
  distinct_html,
}
use uclip_daemon.History.State.{SystemTime, since_epoch}

abbrev pub in_order : BlobOrder
in_order = record { order = λ m. m; order_perm = λ m. Permᴰ.refl m }

abbrev pub noon : SystemTime
noon = since_epoch 1700000000000000000

-- "hi", with an image; the HTML is empty.
abbrev pub caption_blobs : Blobs
caption_blobs =
    ("text/plain", 104 ∷ 105 ∷ []) ∷ ("text/html", []) ∷ ("image/png", 1 ∷ 2 ∷ 3 ∷ []) ∷ []

pub caption_blobs-IsMap : IsMap caption_blobs
unfolding get
caption_blobs-IsMap = (refl, (refl, (refl, tt)))

abbrev pub caption_text : TextData
caption_text = record {
  text = 104 ∷ 105 ∷ [];
  html = none;
  primary_mime = "text/plain";
  offered_mimes = "text/plain" ∷ [];
  blobs = ("text/plain", 104 ∷ 105 ∷ []) ∷ [];
}

abbrev pub caption : ClipboardContent
caption = mixed_content (record {
  text = some caption_text;
  images = record { mime_type = "image/png"; bytes = 1 ∷ 2 ∷ 3 ∷ [] } ∷ [];
})

pub caption_text_lem : build_text in_order caption_text.blobs ≡ some caption_text
unfolding first_held choose_primary text_data build_text distinct_html get contains_key sort_by
    insert_sorted from_utf8_lossy
caption_text_lem = refl

pub caption_lem : from_blobs in_order caption_blobs ≡ some caption
unfolding from_blobs from_split split_blobs first_held choose_primary text_data build_text
    sort_images classify distinct_html is_text_mime get insert contains_key sort_by insert_sorted
    from_utf8_lossy
caption_lem = refl
