-- ===== src/History/Content/Decoded.antt =====
-- The text that is kept of a copy, against the text that its client encoded.
use uclip_daemon.Base.{
  ◌≡◌, refl, sym, ap, ◌∙◌, inl, inr, List, [], ◌∷◌, some, Option-cases, All, arith, true, String,
  subst,
}
use uclip_daemon.Base.Eq.{string_eq}
use uclip_daemon.HashMap.{get, keys}
use uclip_daemon.HashMap.Laws.{is_some}
use uclip_daemon.HashMap.Order.{All-perm}
use mathlib.Core.List.Permᴰ
use mathlib.Core.List.Permᴰ.{Permᴰ}
use text.Mathlib.TextEquality.{eq_iff}
use uclip_daemon.Base.Order.{str_leb}
use uclip_daemon.Text.Sort.{sort_by, sort_by-perm}
use uclip_daemon.Config.{preferred_text_mimes}
use uclip_daemon.Text.{Chars}
use uclip_daemon.Text.Utf8.{IsScalarValue, encode_all, from_utf8_lossy, from_utf8_lossy-encode}
use uclip_daemon.History.Content.Blobs.{build_text-total, first_held-get}
use uclip_daemon.History.Content.{
  Blobs, BlobOrder, TextData, choose_primary, text_data, build_text, unwrap_or, head, first_held,
  or_else,
}

built :
    (it : BlobOrder) (blobs : Blobs) (t : TextData)
    → build_text it blobs ≡ some t
    → t ≡ text_data it blobs t.primary_mime
unfolding build_text text_data
built it [] t h = absurd (ground arith)
built it (b ∷ blobs) t h =
    let (k, _, e) = build_text-total it (b ∷ blobs) (λ q. ground arith) in
    let same : text_data it (b ∷ blobs) k ≡ t = ap (λ o. unwrap_or o t) (sym e ∙ h) in
    rw (sym same) refl

IsHeld : Blobs → String → Type 0
IsHeld blobs k = is_some (get blobs k) ≡ true

keys-IsHeld :
    (blobs : Blobs) (m : Blobs)
    → ((k : String) → IsHeld m k → IsHeld blobs k)
    → All (IsHeld blobs) (keys m)
unfolding IsHeld get
keys-IsHeld blobs [] up = tt
keys-IsHeld blobs ((j, v) ∷ m) up =
    (up j (ground (arith, eq_iff j j)), keys-IsHeld blobs m (λ k h. up k (ground arith)))

head-All : (P : String → Type 0) (xs : List String) (k : String) → All P xs → head xs ≡ some k → P k
head-All P [] k h e = absurd (ground arith)
head-All P (x ∷ xs) k h e = subst P (ap (λ o. unwrap_or o k) e) h.0

choose_primary-IsHeld :
    (it : BlobOrder) (m : Blobs) (k : String) → choose_primary it m ≡ some k → IsHeld m k
unfolding choose_primary IsHeld
choose_primary-IsHeld it m k h = elim (Option-cases (first_held m preferred_text_mimes)) [
  | inl e ↦
      head-All (IsHeld m) _ k
        (All-perm (IsHeld m)
          (Permᴰ.symm (
            Permᴰ.trans (sort_by-perm str_leb (keys (it.order m)))
              (Permᴰ.map (λ b. b.0) (it.order_perm m))))
          (keys-IsHeld m m (λ k h. h)))
        (ap (λ o. or_else o (head (sort_by str_leb (keys (it.order m))))) (sym e) ∙ h)
  | inr (p, e) ↦ first_held-get m preferred_text_mimes k (ground arith)
]

-- The payload that the text is decoded from is there: the `expect` of the source never fails.
pub primary_mime-IsHeld :
    (it : BlobOrder) (blobs : Blobs) (t : TextData)
    → build_text it blobs ≡ some t
    → is_some (get blobs t.primary_mime) ≡ true
unfolding IsHeld text_data build_text
primary_mime-IsHeld it [] t h = absurd (ground arith)
primary_mime-IsHeld it (b ∷ blobs) t h =
    let (k, chosen, e) = build_text-total it (b ∷ blobs) (λ q. ground arith) in
    let same : text_data it (b ∷ blobs) k ≡ t = ap (λ o. unwrap_or o t) (sym e ∙ h) in
    subst (IsHeld (b ∷ blobs)) (ap (λ (x : TextData). x.primary_mime) same)
      (choose_primary-IsHeld it (b ∷ blobs) k chosen)

-- If the payload of the primary type is UTF-8, the text of the copy is the text it encodes.
pub text-encode_all :
    (it : BlobOrder) (blobs : Blobs) (t : TextData) (cs : Chars)
    → build_text it blobs ≡ some t
    → All IsScalarValue cs
    → get blobs t.primary_mime ≡ some (encode_all cs)
    → t.text ≡ cs
unfolding text_data
text-encode_all it blobs t cs h valid held =
    ap (λ (x : TextData). x.text) (built it blobs t h)
    ∙ ap (λ o. from_utf8_lossy (unwrap_or o [])) held
    ∙ from_utf8_lossy-encode cs valid
