-- ===== src/History/Content.antt =====
-- The payload of one copy (`ClipboardContent`) and `from_blobs`, which classifies raw blobs.
pub mod Views
pub mod Blobs
pub mod Classified
pub mod Kept
pub mod Decoded
pub mod Repeat
pub mod Unlisted
use uclip_daemon.Base.{
  ℕ, zero, suc, ◌^◌, ◌-◌, String, List, [], ◌∷◌, ◌++◌, map, Bool, true, false, ◌||◌, Option, none,
  some, is_empty, leb, length, if◌then◌else◌,
}
use uclip_daemon.Base.Eq.{Eq, string_eq, nat_eq, ◌==◌, list_beq}
use uclip_daemon.Base.Order.{str_leb}
use uclip_daemon.HashMap.{HashMap, Iteration, get, contains_key, insert, keys}
use uclip_daemon.Text.{Chars, Bytes}
use uclip_daemon.Text.Utf8.{from_utf8_lossy}
use uclip_daemon.Text.Sort.{sort_by}
use uclip_daemon.Config.{preferred_text_mimes}
use uclip_daemon.Mime.{is_text_mime}

abbrev pub Blobs : Type 0
Blobs = HashMap String Bytes

-- How the maps of blobs are visited.
abbrev pub BlobOrder : Type 0
BlobOrder = Iteration (String × Bytes)

pub record TextData : Type 0 where
  pub text : Chars
  pub html : Option Chars
  pub primary_mime : String
  pub offered_mimes : List String
  pub blobs : Blobs

pub record ImageData : Type 0 where
  pub mime_type : String
  pub bytes : Bytes

pub record MixedData : Type 0 where
  pub text : Option TextData
  pub images : List ImageData

pub data ClipboardContent : Type 0 where
  text_content : TextData → ClipboardContent
  image_content : ImageData → ClipboardContent
  mixed_content : MixedData → ClipboardContent

-- The loop of `from_blobs`: the text blobs as a map, all others as a vector.
unfoldable pub split_blobs :
    List (String × Bytes) → Blobs → List (String × Bytes) → Blobs × List (String × Bytes)
split_blobs [] text_blobs image_blobs = (text_blobs, image_blobs)
split_blobs ((mime, bytes) ∷ blobs) text_blobs image_blobs =
    let skipped = split_blobs blobs text_blobs image_blobs in
    let with_text = split_blobs blobs (insert mime bytes text_blobs) image_blobs in
    let with_image = split_blobs blobs text_blobs (image_blobs ++ (mime, bytes) ∷ []) in
    if is_empty bytes then skipped else if is_text_mime mime then with_text else with_image

-- `PREFERRED_TEXT_MIMES.iter().find_map(…)`
unfoldable pub first_held : Blobs → List String → Option String
first_held blobs [] = none
first_held blobs (p ∷ rest) = if contains_key blobs p then some p else first_held blobs rest

abbrev pub head {ℓ} : {A : Type ℓ} → List A → Option A
head [] = none
head (x ∷ xs) = some x

abbrev pub or_else {ℓ} : {A : Type ℓ} → Option A → Option A → Option A
or_else none b = b
or_else (some a) b = some a

abbrev pub unwrap_or {ℓ} : {A : Type ℓ} → Option A → A → A
unwrap_or none d = d
unwrap_or (some a) d = a

-- The preferred type that is there, else the least key.
unfoldable pub choose_primary : BlobOrder → Blobs → Option String
choose_primary it blobs =
    or_else (first_held blobs preferred_text_mimes) (head (sort_by str_leb (keys (it.order blobs))))

position : String → List String → Option ℕ
position m [] = none
position m (p ∷ rest) =
    if p == m then some 0 else elim (position m rest) [ none ↦ none | some i ↦ some (suc i) ]

-- `usize::MAX`, on a machine of 64 bits
abbrev pub usize_max : ℕ
usize_max = 2 ^ 64 - 1

unfoldable pub rank : String → ℕ
unfolding position
rank m = unwrap_or (position m preferred_text_mimes) usize_max

-- HTML is kept if its bytes are not those of the primary type.
unfoldable pub distinct_html : Option Bytes → Option Bytes → String → Option Chars
distinct_html none primary primary_mime = none
distinct_html (some bytes) none primary_mime =
    if primary_mime == "text/html" then none else some (from_utf8_lossy bytes)
distinct_html (some bytes) (some p) primary_mime =
    if list_beq p bytes || primary_mime == "text/html" then none else some (from_utf8_lossy bytes)

-- `blobs.get(&primary_mime).expect(…)`: the key is always there (`choose_primary-total`).
unfoldable pub text_data : BlobOrder → Blobs → String → TextData
text_data it blobs primary_mime = record {
  text = from_utf8_lossy (unwrap_or (get blobs primary_mime) []);
  html = distinct_html (get blobs "text/html") (get blobs primary_mime) primary_mime;
  primary_mime = primary_mime;
  offered_mimes = sort_by (λ a b. leb (rank a) (rank b)) (keys (it.order blobs));
  blobs = blobs;
}

unfoldable pub build_text : BlobOrder → Blobs → Option TextData
build_text it [] = none
build_text it (b ∷ blobs) = elim (choose_primary it (b ∷ blobs)) [
  | none ↦ none
  | some primary_mime ↦ some (text_data it (b ∷ blobs) primary_mime)
]

unfoldable pub sort_images : List (String × Bytes) → List ImageData
sort_images image_blobs =
    sort_by (λ (a b : ImageData). str_leb a.mime_type b.mime_type)
      (map (λ b. record { mime_type = b.0; bytes = b.1 }) image_blobs)

unfoldable pub classify : Option TextData → List ImageData → ClipboardContent
classify (some t) [] = text_content t
classify none (i ∷ []) = image_content i
classify t images = mixed_content (record { text = t; images = images })

unfoldable pub from_split : BlobOrder → Blobs × List (String × Bytes) → Option ClipboardContent
from_split it ([], []) = none
from_split it (text_blobs, image_blobs) =
    some (classify (build_text it text_blobs) (sort_images image_blobs))

-- `it` gives the orders in which the maps are visited.
unfoldable pub from_blobs : BlobOrder → Blobs → Option ClipboardContent
from_blobs it blobs = from_split it (split_blobs (it.order blobs) [] [])
