-- ===== src/History/Content/Views.antt =====
-- What is read of a payload: `primary_mime`, `offered_mimes`, `representations`, `has_text`,
-- `preview`, `image_summaries`, and the derived equality.
use uclip_daemon.Base.{
  ℕ, String, List, [], ◌∷◌, ◌++◌, map, Bool, true, false, ◌&&◌, Option, none, some, is_empty,
  length, if◌then◌else◌,
}
use uclip_daemon.Base.Eq.{Eq, string_eq, nat_eq, ◌==◌, list_beq, list_beq_iff}
use uclip_daemon.Base.Order.{codes}
use uclip_daemon.HashMap.{insert, extend, map_beq}
use uclip_daemon.Text.{Chars, Bytes, first_line, decimal, join}
use uclip_daemon.History.Content.{
  Blobs, TextData, ImageData, ClipboardContent, text_content, image_content, mixed_content, head,
  or_else, unwrap_or,
}

unfoldable pub primary_mime : ClipboardContent → String
primary_mime (text_content t) = t.primary_mime
primary_mime (image_content i) = i.mime_type
primary_mime (mixed_content m) =
    unwrap_or
      (or_else (elim m.text [ none ↦ none | some t ↦ some t.primary_mime ])
        (elim (head m.images) [ none ↦ none | some i ↦ some i.mime_type ]))
      "application/octet-stream"

unfoldable pub offered_mimes : ClipboardContent → List String
offered_mimes (text_content t) = t.offered_mimes
offered_mimes (image_content i) = i.mime_type ∷ []
offered_mimes (mixed_content m) =
    elim m.text [ none ↦ [] | some t ↦ t.offered_mimes ] ++ map (λ i. i.mime_type) m.images

unfoldable pub insert_images : Blobs → List ImageData → Blobs
insert_images map [] = map
insert_images map (img ∷ images) = insert_images (insert img.mime_type img.bytes map) images

unfoldable pub representations : ClipboardContent → Blobs
representations (text_content t) = t.blobs
representations (image_content i) = extend [] ((i.mime_type, i.bytes) ∷ [])
representations (mixed_content m) =
    insert_images (elim m.text [ none ↦ [] | some t ↦ extend [] t.blobs ]) m.images

unfoldable pub has_text : ClipboardContent → Bool
has_text (text_content t) = true
has_text (image_content i) = false
has_text (mixed_content m) = elim m.text [ none ↦ false | some t ↦ true ]

-- `format!("<{} bytes of {}>", …)`
unfoldable pub byte_summary : ImageData → Chars
byte_summary i =
    codes "<"
    ++ (decimal (length i.bytes) ++ (codes " bytes of " ++ (codes i.mime_type ++ codes ">")))

join_parts : Chars → Chars → Chars
join_parts text_part image_part =
    if is_empty text_part
    then image_part
    else if is_empty image_part
    then text_part
    else text_part ++ (codes " + " ++ image_part)

unfoldable pub preview : ClipboardContent → Chars
unfolding byte_summary join_parts
preview (text_content t) = first_line t.text
preview (image_content i) = byte_summary i
preview (mixed_content m) =
    join_parts (elim m.text [ none ↦ [] | some t ↦ first_line t.text ])
      (join (codes ", ") (map byte_summary m.images))

unfoldable pub image_summaries : ClipboardContent → List (String × ℕ)
image_summaries (text_content t) = []
image_summaries (image_content i) = (i.mime_type, length i.bytes) ∷ []
image_summaries (mixed_content m) = map (λ i. (i.mime_type, length i.bytes)) m.images

instance abbrev pub bytes_eq : Eq Bytes
bytes_eq = record { beq = list_beq; beq_iff = list_beq_iff }

instance abbrev pub mimes_eq : Eq (List String)
mimes_eq = record { beq = list_beq; beq_iff = list_beq_iff }

unfoldable pub html_beq : Option Chars → Option Chars → Bool
html_beq none none = true
html_beq (some a) (some b) = list_beq a b
html_beq _ _ = false

unfoldable pub text_beq : TextData → TextData → Bool
unfolding html_beq
text_beq a b =
    list_beq a.text b.text
    && html_beq a.html b.html
    && a.primary_mime == b.primary_mime
    && list_beq a.offered_mimes b.offered_mimes
    && map_beq a.blobs b.blobs

unfoldable pub image_beq : ImageData → ImageData → Bool
image_beq a b = a.mime_type == b.mime_type && list_beq a.bytes b.bytes

unfoldable pub images_beq : List ImageData → List ImageData → Bool
unfolding image_beq
images_beq [] [] = true
images_beq (a ∷ as') (b ∷ bs) = image_beq a b && images_beq as' bs
images_beq _ _ = false

unfoldable pub mixed_text_beq : Option TextData → Option TextData → Bool
unfolding text_beq
mixed_text_beq none none = true
mixed_text_beq (some a) (some b) = text_beq a b
mixed_text_beq _ _ = false

-- The derived `PartialEq`.
unfoldable pub content_beq : ClipboardContent → ClipboardContent → Bool
unfolding images_beq mixed_text_beq
content_beq (text_content a) (text_content b) = text_beq a b
content_beq (image_content a) (image_content b) = image_beq a b
content_beq (mixed_content a) (mixed_content b) =
    mixed_text_beq a.text b.text && images_beq a.images b.images
content_beq _ _ = false
