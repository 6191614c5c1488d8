-- ===== src/History/Content/Classified.antt =====
-- The payloads of the texts and of the images, before and after they are classified.
use mathlib.Core.List.Permᴰ
use mathlib.Core.List.Permᴰ.{Permᴰ}
use uclip_daemon.Base.{
  ◌≡◌, refl, ap, subst, ◌≢◌, String, List, [], ◌∷◌, map, true, not, Option, none, some, is_empty,
  arith, if◌then◌else◌, ◌↔◌,
}
use uclip_daemon.Base.Eq.{string_eq, beq_refl}
use uclip_daemon.HashMap.{get, insert, extend, IsMap}
use uclip_daemon.HashMap.Laws.{is_some, keep, get-extend, extend-IsMap}
use uclip_daemon.Text.{Bytes}
use uclip_daemon.Text.Sort.{sort_by-perm}
use uclip_daemon.Mime.{is_text_mime}
use uclip_daemon.History.Content.{
  Blobs, BlobOrder, TextData, ImageData, ClipboardContent, text_data, build_text, sort_images,
  classify, from_split,
}
use uclip_daemon.History.Content.Views.{insert_images, representations, has_text}
use uclip_daemon.History.Content.Blobs.{is_text_entry, is_image_entry, build_text-total}

-- Images as entries of a map.
abbrev pub pairs : List ImageData → Blobs
pairs = map (λ i. (i.mime_type, i.bytes))

insert_images-extend :
    (imgs : List ImageData) (m : Blobs) → insert_images m imgs ≡ extend m (pairs imgs)
unfolding insert_images extend
insert_images-extend [] m = refl
insert_images-extend (i ∷ imgs) m = insert_images-extend imgs (insert i.mime_type i.bytes m)

pub pairs-perm : (bs : List (String × Bytes)) → Permᴰ (pairs (sort_images bs)) bs
unfolding sort_images
pairs-perm bs =
    subst (Permᴰ _) (pairs_images bs) (Permᴰ.map (λ i. (i.mime_type, i.bytes)) (sort_by-perm _ _))
  where
    pairs_images :
        (cs : List (String × Bytes))
        → pairs (map (λ b. record { mime_type = b.0; bytes = b.1 }) cs) ≡ cs
    pairs_images [] = refl
    pairs_images (c ∷ cs) = ap (◌∷◌ c) (pairs_images cs)

abbrev text_blobs : Option TextData → Blobs
text_blobs none = []
text_blobs (some t) = t.blobs

abbrev first_of_two : Option Bytes → Option Bytes → Option Bytes
first_of_two a b = if is_some a then a else b

pub get-extend-nil : (m : Blobs) (k : String) → IsMap m → get (extend [] m) k ≡ get m k
unfolding get
get-extend-nil m k h = ground (arith, get-extend [] m k h)

module _ (k : String) where
  pub representations-classify :
      (t : Option TextData) (imgs : List ImageData)
      → IsMap (text_blobs t)
      → IsMap (pairs imgs)
      → get (representations (classify t imgs)) k
        ≡ first_of_two (get (pairs imgs) k) (get (text_blobs t) k)
  unfolding representations classify get insert_images
  representations-classify (some t) [] h g = refl
  representations-classify none (i ∷ []) h g =
      ground (arith, get-extend-nil ((i.mime_type, i.bytes) ∷ []) k g)
  representations-classify none [] h g = refl
  representations-classify none (i ∷ j ∷ imgs) h g =
      rw (insert_images-extend (i ∷ j ∷ imgs) []) (get-extend [] (pairs (i ∷ j ∷ imgs)) k g)
  representations-classify (some t) (i ∷ imgs) h g =
      rw (insert_images-extend (i ∷ imgs) (extend [] t.blobs)) (
        rw (get-extend (extend [] t.blobs) (pairs (i ∷ imgs)) k g)
          (rw (get-extend-nil t.blobs k h)))

pub classify-IsMap :
    (t : Option TextData) (imgs : List ImageData)
    → IsMap (text_blobs t)
    → IsMap (representations (classify t imgs))
unfolding representations classify get insert_images
classify-IsMap (some t) [] h = h
classify-IsMap none [] h = tt
classify-IsMap none (i ∷ []) h = extend-IsMap [] ((i.mime_type, i.bytes) ∷ []) tt
classify-IsMap none (i ∷ j ∷ imgs) h =
    rw (insert_images-extend (i ∷ j ∷ imgs) []) (extend-IsMap [] (pairs (i ∷ j ∷ imgs)) tt)
classify-IsMap (some t) (i ∷ imgs) h =
    rw (insert_images-extend (i ∷ imgs) (extend [] t.blobs))
      (extend-IsMap _ (pairs (i ∷ imgs)) (extend-IsMap [] t.blobs tt))

-- A payload that is not empty.
abbrev pub nonempty : Option Bytes → Option Bytes
nonempty none = none
nonempty (some b) = if is_empty b then none else some b

pub text_blobs-build_text : (it : BlobOrder) (m : Blobs) → text_blobs (build_text it m) ≡ m
unfolding build_text text_data
text_blobs-build_text it [] = refl
text_blobs-build_text it (b ∷ m) =
    let (k, _, e) = build_text-total it (b ∷ m) (λ q. ground arith) in rw e

-- One blob goes to the texts, to the images, or nowhere.
pub first_of_kept :
    (k : String) (o : Option Bytes)
    → first_of_two (keep is_image_entry k o) (keep is_text_entry k o) ≡ nonempty o
first_of_kept k none = refl
first_of_kept k (some b) = ground arith

pub from_split-classify :
    (it : BlobOrder) (t : Blobs) (i : List (String × Bytes)) (c : ClipboardContent)
    → from_split it (t, i) ≡ some c
    → classify (build_text it t) (sort_images i) ≡ c
unfolding from_split
from_split-classify it [] [] c h = cc
from_split-classify it [] (b ∷ i) c h = cc
from_split-classify it (b ∷ t) i c h = cc

pub from_split-none :
    (it : BlobOrder) (t : Blobs) (i : List (String × Bytes))
    → (from_split it (t, i) ≡ none) ↔ ((t ≡ []) × (i ≡ []))
unfolding from_split
from_split-none it [] [] = (λ h. (refl, refl), λ h. refl)
from_split-none it [] (b ∷ i) = (λ h. cc, λ h. ground arith)
from_split-none it (b ∷ t) i = (λ h. cc, λ h. ground arith)

pub no_keys : (m : Blobs) → ((k : String) → get m k ≡ none) → m ≡ []
unfolding get
no_keys [] h = refl
no_keys ((k, v) ∷ m) h = absurd (ground (arith, h k, beq_refl k))

pub has_text-classify :
    (t : Option TextData) (imgs : List ImageData) → has_text (classify t imgs) ≡ is_some t
unfolding has_text classify
has_text-classify (some t) [] = refl
has_text-classify none [] = refl
has_text-classify none (i ∷ []) = refl
has_text-classify none (i ∷ j ∷ imgs) = refl
has_text-classify (some t) (i ∷ imgs) = refl

pub is_some-build_text : (it : BlobOrder) (m : Blobs) → is_some (build_text it m) ≡ not (is_empty m)
unfolding build_text
is_some-build_text it [] = refl
is_some-build_text it (b ∷ m) =
    let (k, _, e) = build_text-total it (b ∷ m) (λ q. ground arith) in rw e

pub some_key :
    (m : Blobs) → not (is_empty m) ≡ true → (k : String) × (v : Bytes) × (get m k ≡ some v)
unfolding get
some_key [] h = absurd (ground arith)
some_key ((k, v) ∷ m) h = (k, v, rw (beq_refl k))

pub some_ne_none : {v : Bytes} → ◌≢◌ {A = Option Bytes} (some v) none
some_ne_none h = cc

pub full : (m : Blobs) (k : String) → get m k ≢ none → not (is_empty m) ≡ true
unfolding get
full [] k h = absurd (h refl)
full (b ∷ m) k h = refl

pub key_of_text :
    (k : String) (o : Option Bytes)
    → keep is_text_entry k o ≢ none ↔ ((is_text_mime k ≡ true) × (nonempty o ≢ none))
key_of_text k none = (λ h. absurd (h refl), λ h. absurd (h.1 refl))
key_of_text k (some b) = ground arith

pub kept_nowhere :
    (k : String) (o : Option Bytes)
    → (nonempty o ≡ none) ↔ ((keep is_text_entry k o ≡ none) × (keep is_image_entry k o ≡ none))
kept_nowhere k none = (λ h. (refl, refl), λ h. refl)
kept_nowhere k (some b) = ground arith

pub get_of_nil : (m : Blobs) (k : String) → m ≡ [] → get m k ≡ none
unfolding get
get_of_nil m k h = rw h
