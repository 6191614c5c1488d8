-- ===== src/History/Content/Kept.antt =====
-- src/clipboard/history.rs: `representations` after `from_blobs`.
use mathlib.Core.List.Permᴰ
use uclip_daemon.Base.{
  ◌≡◌, sym, ap, subst, ◌∙◌, ◌≢◌, String, List, [], true, not, none, some, is_empty, retain, ◌↔◌,
}
use uclip_daemon.Base.Eq.{string_eq}
use uclip_daemon.HashMap.{get, extend, IsMap}
use uclip_daemon.HashMap.Laws.{keep, get-retain, retain-IsMap, extend-IsMap}
use uclip_daemon.HashMap.Order.{get-perm, IsMap-perm}
use uclip_daemon.Text.{Bytes}
use uclip_daemon.Mime.{is_text_mime}
use uclip_daemon.History.Content.{
  Blobs, BlobOrder, ClipboardContent, build_text, sort_images, from_split, from_blobs,
}
use uclip_daemon.History.Content.Views.{representations, has_text}
use uclip_daemon.History.Content.Blobs.{is_text_entry, is_image_entry, split_blobs-retain}
use uclip_daemon.History.Content.Classified.{
  pairs, pairs-perm, get-extend-nil, representations-classify, classify-IsMap, nonempty,
  text_blobs-build_text, first_of_kept, from_split-classify, from_split-none, no_keys,
  has_text-classify, is_some-build_text, some_key, some_ne_none, full, key_of_text, kept_nowhere,
  get_of_nil,
}

module _ (it : BlobOrder) (blobs : Blobs) (valid : IsMap blobs) where
  abbrev visited : List (String × Bytes)
  visited = it.order blobs

  abbrev texts : Blobs
  texts = extend [] (retain is_text_entry visited)

  abbrev images : List (String × Bytes)
  images = retain is_image_entry visited

  visited-IsMap : IsMap visited
  visited-IsMap = IsMap-perm (Permᴰ.symm (it.order_perm blobs)) valid

  texts-IsMap : IsMap texts
  texts-IsMap = extend-IsMap [] (retain is_text_entry visited) tt

  get-texts : (k : String) → get texts k ≡ keep is_text_entry k (get blobs k)
  get-texts k =
      get-extend-nil _ k (retain-IsMap is_text_entry visited visited-IsMap)
      ∙ get-retain is_text_entry visited k visited-IsMap
      ∙ ap (keep is_text_entry k) (get-perm k (it.order_perm blobs) visited-IsMap)

  images-IsMap : IsMap (pairs (sort_images images))
  images-IsMap =
      IsMap-perm (Permᴰ.symm (pairs-perm images))
        (retain-IsMap is_image_entry visited visited-IsMap)

  get-image_blobs : (k : String) → get images k ≡ keep is_image_entry k (get blobs k)
  get-image_blobs k =
      get-retain is_image_entry visited k visited-IsMap
      ∙ ap (keep is_image_entry k) (get-perm k (it.order_perm blobs) visited-IsMap)

  get-images :
      (k : String) → get (pairs (sort_images images)) k ≡ keep is_image_entry k (get blobs k)
  get-images k = get-perm k (pairs-perm images) images-IsMap ∙ get-image_blobs k

  from_blobs-split : from_blobs it blobs ≡ from_split it (texts, images)
  unfolding from_blobs
  from_blobs-split = ap (from_split it) (split_blobs-retain visited [] [])

  -- A stored copy offers exactly the payloads that were read and were not empty, byte for byte.
  pub get-representations :
      (c : ClipboardContent)
      → from_blobs it blobs ≡ some c
      → (k : String) → get (representations c) k ≡ nonempty (get blobs k)
  get-representations c h k =
      ap (λ (x : ClipboardContent). get (representations x) k)
        (sym (from_split-classify it texts images c (sym from_blobs-split ∙ h)))
      ∙ representations-classify k (build_text it texts) (sort_images images)
          (rw (text_blobs-build_text it texts) texts-IsMap) images-IsMap
      ∙ rw (text_blobs-build_text it texts, get-images k, get-texts k)
          (first_of_kept k (get blobs k))

  -- Nothing is stored exactly if every payload is empty.
  pub from_blobs-none_iff :
      (from_blobs it blobs ≡ none) ↔ ((k : String) → nonempty (get blobs k) ≡ none)
  from_blobs-none_iff = (
    λ h k.
        let (no_texts, no_images) =
          (from_split-none it texts images).0 (sym from_blobs-split ∙ h) in
        (kept_nowhere k (get blobs k)).1 (
          sym (get-texts k) ∙ get_of_nil texts k no_texts,
          sym (get-image_blobs k) ∙ get_of_nil images k no_images,
        ),
    λ h.
        from_blobs-split
        ∙ (from_split-none it texts images).1 (
          no_keys texts (λ k. get-texts k ∙ ((kept_nowhere k (get blobs k)).0 (h k)).0),
          no_keys images (λ k. get-image_blobs k ∙ ((kept_nowhere k (get blobs k)).0 (h k)).1),
        ),
  )

  -- Each stored type stands once.
  pub representations-IsMap :
      (c : ClipboardContent) → from_blobs it blobs ≡ some c → IsMap (representations c)
  representations-IsMap c h =
      subst (λ x. IsMap (representations x))
        (from_split-classify it texts images c (sym from_blobs-split ∙ h))
        (classify-IsMap (build_text it texts) (sort_images images)
          (rw (text_blobs-build_text it texts) texts-IsMap))

  -- A copy has text exactly if a text type was read with a payload that is not empty.
  pub has_text_iff :
      (c : ClipboardContent)
      → from_blobs it blobs ≡ some c
      → (has_text c ≡ true)
        ↔ ((k : String) × (is_text_mime k ≡ true) × (nonempty (get blobs k) ≢ none))
  has_text_iff c h =
      let same : has_text c ≡ not (is_empty texts) =
        ap has_text (sym (from_split-classify it texts images c (sym from_blobs-split ∙ h)))
        ∙ has_text-classify (build_text it texts) (sort_images images)
        ∙ is_some-build_text it texts in
      (
        λ t.
            let (k, v, e) = some_key texts (sym same ∙ t) in
            let (text, held) =
              (key_of_text k (get blobs k)).0 (λ z. some_ne_none (sym e ∙ get-texts k ∙ z)) in
            (k, text, held),
        λ (k, text, held).
            same
            ∙ full texts k
                (λ z. (key_of_text k (get blobs k)).1 (text, held) (sym (get-texts k) ∙ z)),
      )
