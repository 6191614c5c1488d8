-- ===== src/History/Content/Repeat.antt =====
-- src/clipboard/history.rs: the same payloads, visited in another order, make an equal copy.
use mathlib.Core.List.Permᴰ
use mathlib.Core.List.Permᴰ.{Permᴰ}
use uclip_daemon.Base.{
  ◌≡◌, ◌≢◌, refl, sym, ap, ◌∙◌, ◌⊎◌, String, List, [], ◌∷◌, map, Bool, true, false, ◌&&◌, Option,
  none, some, leb, arith, All, retain,
}
use uclip_daemon.Base.Eq.{string_eq, nat_eq, beq_refl, list_beq, list_beq_iff, ◌==◌}
use uclip_daemon.Base.Order.{str_leb, str_leb_total, str_leb_trans, str_leb_antisym}
use uclip_daemon.HashMap.{get, contains_key, keys, map_beq, IsMap}
use uclip_daemon.HashMap.Laws.{contains_key-get, retain-IsMap}
use uclip_daemon.HashMap.Order.{get-perm, IsMap-perm, length-perm}
use uclip_daemon.HashMap.Visits.{retain-perm, extend-nil, map_beq-perm}
use uclip_daemon.Text.{Bytes, Chars}
use uclip_daemon.Text.Unique.{IsTieless, IsTieless-perm, sort_by_unique}
use uclip_daemon.Text.Utf8.{from_utf8_lossy}
use uclip_daemon.Config.{preferred_text_mimes}
use uclip_daemon.History.Content.{
  Blobs, BlobOrder, TextData, ImageData, ClipboardContent, first_held, unwrap_or, choose_primary,
  rank, text_data, build_text, sort_images, classify, from_split, from_blobs,
}
use uclip_daemon.History.Content.Views.{
  html_beq, text_beq, image_beq, images_beq, mixed_text_beq, content_beq, bytes_eq,
}
use uclip_daemon.History.Content.Blobs.{
  is_text_entry, is_image_entry, split_blobs-retain, build_text-total,
}
use uclip_daemon.History.Content.Classified.{from_split-classify}

-- Before in the order of `offered_mimes`.
abbrev pub by_rank : String → String → Bool
by_rank a b = leb (rank a) (rank b)

by_rank_total : (a b : String) → (by_rank a b ≡ true) ⊎ (by_rank b a ≡ true)
by_rank_total a b = ground arith

by_rank_trans : (a b c : String) → by_rank a b ≡ true → by_rank b c ≡ true → by_rank a c ≡ true
by_rank_trans a b c h k = ground arith

-- The keys of a map do not tie.
keys-IsTieless : (m : Blobs) → IsMap m → IsTieless str_leb (keys m)
unfolding get
keys-IsTieless [] h = tt
keys-IsTieless ((k, v) ∷ m) h = (above m h.0, keys-IsTieless m h.1)
  where
    above : (m : Blobs) → get m k ≡ none → All (λ j. (str_leb k j && str_leb j k) ≡ false) (keys m)
    above [] h = tt
    above ((j, w) ∷ m) h = (
      ground (arith, h, str_leb_antisym k j, beq_refl k, string_eq.beq_iff j k),
      above m (ground (arith, h)),
    )

first_held-same :
    (a b : Blobs) (ps : List String)
    → ((k : String) → get a k ≡ get b k)
    → first_held a ps ≡ first_held b ps
unfolding first_held
first_held-same a b [] same = refl
first_held-same a b (p ∷ ps) same =
    let here : contains_key a p ≡ contains_key b p =
      ground (arith, contains_key-get a p, contains_key-get b p, same p) in
    ground (arith, here, first_held-same a b ps same)

html_beq-true : (a b : Option Chars) → a ≡ b → html_beq a b ≡ true
unfolding html_beq
html_beq-true none none h = refl
html_beq-true (some a) (some b) h = (list_beq_iff a b).1 (cc)
html_beq-true none (some b) h = cc
html_beq-true (some a) none h = cc

all_true :
    (a b c d e : Bool)
    → a ≡ true
    → b ≡ true
    → c ≡ true
    → d ≡ true
    → e ≡ true
    → (a && b && c && d && e) ≡ true
all_true a b c d e p q r s t = ground arith

text_beq-true :
    (a b : TextData)
    → a.text ≡ b.text
    → a.html ≡ b.html
    → a.primary_mime ≡ b.primary_mime
    → a.offered_mimes ≡ b.offered_mimes
    → map_beq a.blobs b.blobs ≡ true
    → text_beq a b ≡ true
unfolding text_beq
text_beq-true a b t h p o m =
    all_true (list_beq a.text b.text) (html_beq a.html b.html) (a.primary_mime == b.primary_mime)
      (list_beq a.offered_mimes b.offered_mimes) (map_beq a.blobs b.blobs)
      ((list_beq_iff a.text b.text).1 t) (html_beq-true a.html b.html h)
      ((string_eq.beq_iff a.primary_mime b.primary_mime).1 p)
      ((list_beq_iff a.offered_mimes b.offered_mimes).1 o) m

images_beq_refl : (imgs : List ImageData) → images_beq imgs imgs ≡ true
unfolding images_beq image_beq
images_beq_refl [] = refl
images_beq_refl (i ∷ imgs) =
    ground
      (arith, images_beq_refl imgs, beq_refl i.mime_type, (list_beq_iff i.bytes i.bytes).1 refl)

some_inj : {x y : String} → some x ≡ some y → x ≡ y
some_inj h = cc

cons_ne_nil : {x : String × Bytes} {m : Blobs} → ◌≢◌ {A = Blobs} (x ∷ m) []
cons_ne_nil h = cc

-- Two maps with the same entries, visited in two orders.
module _ (it it' : BlobOrder) (a b : Blobs) (same : Permᴰ a b) (valid : IsMap a) where
  get-same : (k : String) → get a k ≡ get b k
  get-same k = get-perm k same valid

  visits : Permᴰ (it.order a) (it'.order b)
  visits = Permᴰ.trans (it.order_perm a) (Permᴰ.trans same (Permᴰ.symm (it'.order_perm b)))

  visited-keys : Permᴰ (keys (it.order a)) (keys (it'.order b))
  visited-keys = Permᴰ.map (λ e. e.0) visits

  choose_primary-same : choose_primary it a ≡ choose_primary it' b
  unfolding choose_primary
  choose_primary-same =
      let sorted =
        sort_by_unique str_leb str_leb_total str_leb_trans visited-keys
          (keys-IsTieless (it.order a) (IsMap-perm (Permᴰ.symm (it.order_perm a)) valid)) in
      rw (first_held-same a b preferred_text_mimes get-same, sorted) refl

  module _ (tieless : IsTieless by_rank (keys a)) where
    text_data-same : (k : String) → text_beq (text_data it a k) (text_data it' b k) ≡ true
    unfolding text_data
    text_data-same k =
        text_beq-true _ _ (ap (λ (o : Option Bytes). from_utf8_lossy (unwrap_or o [])) (get-same k))
          (rw (get-same "text/html", get-same k) refl) refl
          (sort_by_unique by_rank by_rank_total by_rank_trans visited-keys
            (IsTieless-perm by_rank (Permᴰ.map (λ e. e.0) (Permᴰ.symm (it.order_perm a))) tieless))
          (map_beq-perm same valid)

    made-same : a ≢ [] → b ≢ [] → mixed_text_beq (build_text it a) (build_text it' b) ≡ true
    unfolding mixed_text_beq
    made-same some_a some_b =
        let (k, chosen, made) = build_text-total it a some_a in
        let (k', chosen', made') = build_text-total it' b some_b in
        let agreed : k' ≡ k = some_inj (sym chosen' ∙ sym choose_primary-same ∙ chosen) in
        rw (made, made', agreed) (text_data-same k)

build_text-same :
    (it it' : BlobOrder) (a b : Blobs)
    → Permᴰ a b
    → IsMap a
    → IsTieless by_rank (keys a)
    → mixed_text_beq (build_text it a) (build_text it' b) ≡ true
unfolding mixed_text_beq build_text
build_text-same it it' [] [] same valid tieless = refl
build_text-same it it' [] (y ∷ b) same valid tieless = absurd (omega (arith, length-perm same))
build_text-same it it' (x ∷ a) [] same valid tieless = absurd (omega (arith, length-perm same))
build_text-same it it' (x ∷ a) (y ∷ b) same valid tieless =
    made-same it it' (x ∷ a) (y ∷ b) same valid tieless (λ h. cons_ne_nil h) (λ h. cons_ne_nil h)

by_mime : ImageData → ImageData → Bool
by_mime i j = str_leb i.mime_type j.mime_type

image_of : String × Bytes → ImageData
image_of b = record { mime_type = b.0; bytes = b.1 }

images-IsTieless : (m : Blobs) → IsTieless str_leb (keys m) → IsTieless by_mime (map image_of m)
unfolding by_mime image_of
images-IsTieless [] h = tt
images-IsTieless (x ∷ m) h = (apart m h.0, images-IsTieless m h.1)
  where
    apart :
        (m : Blobs)
        → All (λ j. (str_leb x.0 j && str_leb j x.0) ≡ false) (keys m)
        → All (λ i. (by_mime (image_of x) i && by_mime i (image_of x)) ≡ false) (map image_of m)
    apart [] h = tt
    apart (y ∷ m) h = (h.0, apart m h.1)

images-same : (xs ys : Blobs) → Permᴰ xs ys → IsMap xs → sort_images xs ≡ sort_images ys
unfolding sort_images by_mime image_of
images-same xs ys same valid =
    sort_by_unique by_mime (λ i j. str_leb_total i.mime_type j.mime_type)
      (λ i j k. str_leb_trans i.mime_type j.mime_type k.mime_type) (Permᴰ.map image_of same)
      (images-IsTieless xs (keys-IsTieless xs valid))

content_beq-classify :
    (t t' : Option TextData) (imgs : List ImageData)
    → mixed_text_beq t t' ≡ true
    → content_beq (classify t imgs) (classify t' imgs) ≡ true
unfolding content_beq mixed_text_beq classify images_beq image_beq
content_beq-classify none none [] h = refl
content_beq-classify none none (i ∷ []) h = ground (arith, images_beq_refl (i ∷ []))
content_beq-classify none none (i ∷ j ∷ imgs) h = images_beq_refl (i ∷ j ∷ imgs)
content_beq-classify (some t) (some t') [] h = h
content_beq-classify (some t) (some t') (i ∷ imgs) h = ground (arith, h, images_beq_refl (i ∷ imgs))
content_beq-classify none (some t') imgs h = cc
content_beq-classify (some t) none imgs h = cc

module _ (blobs : Blobs) (valid : IsMap blobs)
    (tieless : IsTieless by_rank (keys (retain is_text_entry blobs))) where
  module _ (it : BlobOrder) where
    visited-IsMap : IsMap (it.order blobs)
    visited-IsMap = IsMap-perm (Permᴰ.symm (it.order_perm blobs)) valid

    from_blobs-classify :
        (c : ClipboardContent)
        → from_blobs it blobs ≡ some c
        → classify
            (build_text it (retain is_text_entry (it.order blobs)))
            (sort_images (retain is_image_entry (it.order blobs)))
          ≡ c
    unfolding from_blobs
    from_blobs-classify c h = from_split-classify it _ _ c (
        sym (
          ap (from_split it) (
            split_blobs-retain (it.order blobs) [] []
            ∙ ap (λ (t : Blobs). (t, retain is_image_entry (it.order blobs)))
                (extend-nil _ (retain-IsMap is_text_entry (it.order blobs) visited-IsMap))))
        ∙ h)

  -- The same payloads make copies that are equal, under whatever orders the maps are visited, unless
  -- two of the text types with a payload share their rank, as two types do that are not listed.
  pub content_beq-from_blobs :
      (it it' : BlobOrder) (c c' : ClipboardContent)
      → from_blobs it blobs ≡ some c
      → from_blobs it' blobs ≡ some c'
      → content_beq c c' ≡ true
  content_beq-from_blobs it it' c c' h k =
      let visits = Permᴰ.trans (it.order_perm blobs) (Permᴰ.symm (it'.order_perm blobs)) in
      let texts = retain is_text_entry (it.order blobs) in
      let texts' = retain is_text_entry (it'.order blobs) in
      let agreed =
        build_text-same it it' texts texts' (retain-perm is_text_entry visits)
          (retain-IsMap is_text_entry (it.order blobs) (visited-IsMap it))
          (IsTieless-perm by_rank
            (Permᴰ.map (λ e. e.0) (retain-perm is_text_entry (Permᴰ.symm (it.order_perm blobs))))
            tieless) in
      let images =
        images-same (retain is_image_entry (it.order blobs))
          (retain is_image_entry (it'.order blobs)) (retain-perm is_image_entry visits)
          (retain-IsMap is_image_entry (it.order blobs) (visited-IsMap it)) in
      rw (sym (from_blobs-classify it c h), sym (from_blobs-classify it' c' k), sym images)
        (content_beq-classify (build_text it texts) (build_text it' texts') _ agreed)
