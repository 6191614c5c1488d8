-- ===== src/History/Content/Blobs.antt =====
-- How the loop of `from_blobs` divides the blobs, and what `build_text` makes of the text blobs.
use mathlib.Core.List.Permᴰ
use mathlib.Core.List.Permᴰ.{Permᴰ}
use uclip_daemon.Base.{
  ◌≡◌, refl, sym, ap, ◌≢◌, String, List, [], ◌∷◌, ◌++◌, append_assoc, append-nil, Bool, true, ◌&&◌,
  not, some, is_empty, retain, arith, Option-cases, inl, inr,
}
use uclip_daemon.Base.Eq.{string_eq}
use uclip_daemon.Base.Order.{str_leb}
use uclip_daemon.HashMap.{get, insert, extend, keys}
use uclip_daemon.HashMap.Laws.{is_some, contains_key-get}
use uclip_daemon.HashMap.Order.{length-perm}
use uclip_daemon.Text.{Bytes}
use uclip_daemon.Text.Sort.{sort_by-perm}
use uclip_daemon.Config.{preferred_text_mimes}
use uclip_daemon.Mime.{is_text_mime}
use uclip_daemon.History.Content.{
  Blobs, BlobOrder, split_blobs, first_held, head, choose_primary, text_data, build_text,
}

-- The entries that the loop keeps as text, and as images.
abbrev pub is_text_entry : String × Bytes → Bool
is_text_entry b = not (is_empty b.1) && is_text_mime b.0

abbrev pub is_image_entry : String × Bytes → Bool
is_image_entry b = not (is_empty b.1) && not (is_text_mime b.0)

pub split_blobs-retain :
    (l : List (String × Bytes)) (t : Blobs) (i : List (String × Bytes))
    → split_blobs l t i ≡ (extend t (retain is_text_entry l), i ++ retain is_image_entry l)
unfolding split_blobs extend
split_blobs-retain [] t i = ap (λ (x : List (String × Bytes)). (t, x)) (sym (append-nil i))
split_blobs-retain ((mime, bytes) ∷ l) t i = ground (
  arith,
  split_blobs-retain l t i,
  split_blobs-retain l (insert mime bytes t) i,
  split_blobs-retain l t (i ++ (mime, bytes) ∷ []),
  append_assoc i ((mime, bytes) ∷ []) (retain is_image_entry l),
)

pub first_held-get :
    (blobs : Blobs) (ps : List String) (p : String)
    → first_held blobs ps ≡ some p
    → is_some (get blobs p) ≡ true
unfolding first_held
first_held-get blobs [] p h = cc
first_held-get blobs (q ∷ ps) p h =
    ground (arith, first_held-get blobs ps p, contains_key-get blobs q, contains_key-get blobs p)

head-keys :
    (xs : List String) (m : Blobs) → Permᴰ xs (keys m) → m ≢ [] → (k : String) × (head xs ≡ some k)
head-keys [] [] p h = absurd (h refl)
head-keys [] (b ∷ m) p h = absurd (ground (arith, length-perm p))
head-keys (x ∷ xs) m p h = (x, refl)

-- A map of text blobs that is not empty has a primary type.
pub choose_primary-total :
    (it : BlobOrder) (m : Blobs) → m ≢ [] → (k : String) × (choose_primary it m ≡ some k)
unfolding choose_primary
choose_primary-total it m h = elim (Option-cases (first_held m preferred_text_mimes)) [
  | inl e ↦ rw e (
      head-keys _ m
        (Permᴰ.trans (sort_by-perm str_leb (keys (it.order m)))
          (Permᴰ.map (λ b. b.0) (it.order_perm m)))
        h)
  | inr (k, e) ↦ (k, rw e)
]

pub build_text-total :
    (it : BlobOrder) (m : Blobs)
    → m ≢ []
    → (k : String) × (choose_primary it m ≡ some k) × (build_text it m ≡ some (text_data it m k))
unfolding build_text
build_text-total it [] h = absurd (h refl)
build_text-total it (b ∷ m) h =
    let (k, e) = choose_primary-total it (b ∷ m) h in (k, e, rw (e, build_text))
