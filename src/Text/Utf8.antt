-- ===== src/Text/Utf8.antt =====
-- `String::from_utf8_lossy`: each maximal invalid sequence becomes U+FFFD.
use uclip_daemon.Base.{
  ℕ, zero, suc, ◌+◌, ◌-◌, ◌*◌, ◌/◌, ◌%◌, ◌<◌, ◌≤◌, ◌≡◌, refl, ap, ◌∙◌, ◌⊎◌, List, [], ◌∷◌, ◌++◌,
  ◌&&◌, All, ltb, leb, eqb, arith, if◌then◌else◌,
}

-- Between two characters, or inside one: the bits so far, how many bytes follow the next one, and
-- the range of the next byte.
pub data Decoder : Type 0 where
  between : Decoder
  inside : ℕ → ℕ → ℕ → ℕ → Decoder

abbrev replacement : ℕ
replacement = 0xfffd

-- The first byte of a character.
start : ℕ → List ℕ × Decoder
start b =
    if ltb b 0x80
    then (b ∷ [], between)
    else if ltb b 0xc2
    then (replacement ∷ [], between)
    else if ltb b 0xe0
    then ([], inside (b - 0xc0) 0 0x80 0xbf)
    else if eqb b 0xe0
    then ([], inside 0 1 0xa0 0xbf)
    else if eqb b 0xed
    then ([], inside 13 1 0x80 0x9f)
    else if ltb b 0xf0
    then ([], inside (b - 0xe0) 1 0x80 0xbf)
    else if eqb b 0xf0
    then ([], inside 0 2 0x90 0xbf)
    else if ltb b 0xf4
    then ([], inside (b - 0xf0) 2 0x80 0xbf)
    else if eqb b 0xf4
    then ([], inside 4 2 0x80 0x8f)
    else (replacement ∷ [], between)

-- A further byte of a character, in range.
continue : ℕ → ℕ → ℕ → List ℕ × Decoder
continue bits zero b = ((bits * 64 + (b - 0x80)) ∷ [], between)
continue bits (suc more) b = ([], inside (bits * 64 + (b - 0x80)) more 0x80 0xbf)

next : Decoder → ℕ → List ℕ × Decoder
unfolding start continue
next between b = start b
next (inside bits more lo hi) b =
    if leb lo b && leb b hi then continue bits more b else (replacement ∷ (start b).0, (start b).1)

decode : Decoder → List ℕ → List ℕ
unfolding next
decode between [] = []
decode (inside bits more lo hi) [] = replacement ∷ []
decode d (b ∷ bytes) = (next d b).0 ++ decode (next d b).1 bytes

unfoldable pub from_utf8_lossy : List ℕ → List ℕ
unfolding decode
from_utf8_lossy bytes = decode between bytes

-- A Unicode scalar value: no surrogate, below 0x110000.
abbrev pub IsScalarValue : ℕ → Type 0
IsScalarValue c = (c < 0xd800) ⊎ ((0xdfff < c) × (c < 0x110000))

-- The encoding of one scalar value.
unfoldable pub encode : ℕ → List ℕ
encode c =
    if ltb c 0x80
    then c ∷ []
    else if ltb c 0x800
    then (0xc0 + c / 64) ∷ (0x80 + c % 64) ∷ []
    else if ltb c 0x10000
    then (0xe0 + c / 4096) ∷ (0x80 + c / 64 % 64) ∷ (0x80 + c % 64) ∷ []
    else (0xf0 + c / 262144) ∷ (0x80 + c / 4096 % 64) ∷ (0x80 + c / 64 % 64) ∷ (0x80 + c % 64) ∷ []

unfoldable pub encode_all : List ℕ → List ℕ
unfolding encode
encode_all [] = []
encode_all (c ∷ cs) = encode c ++ encode_all cs

module _ (bits lo hi b : ℕ) (above : lo ≤ b) (below : b ≤ hi) where
  next_last : next (inside bits 0 lo hi) b ≡ ((bits * 64 + (b - 0x80)) ∷ [], between)
  unfolding next
  next_last = ground arith

  next_more :
      (more : ℕ)
      → next (inside bits (suc more) lo hi) b ≡ ([], inside (bits * 64 + (b - 0x80)) more 0x80 0xbf)
  unfolding next
  next_more more = ground arith

module _ (a bits lo hi : ℕ) (rest : List ℕ) where
  decode_two :
      (b : ℕ)
      → start a ≡ ([], inside bits 0 lo hi)
      → lo ≤ b
      → b ≤ hi
      → decode between (a ∷ b ∷ rest) ≡ (bits * 64 + (b - 0x80)) ∷ decode between rest
  unfolding decode
  decode_two b e p q = rw (e, next_last bits lo hi b p q)

  decode_three :
      (b c : ℕ)
      → start a ≡ ([], inside bits 1 lo hi)
      → lo ≤ b
      → b ≤ hi
      → 0x80 ≤ c
      → c ≤ 0xbf
      → decode between (a ∷ b ∷ c ∷ rest)
        ≡ ((bits * 64 + (b - 0x80)) * 64 + (c - 0x80)) ∷ decode between rest
  unfolding decode
  decode_three b c e p q p' q' =
      rw (e, next_more bits lo hi b p q 0, next_last (bits * 64 + (b - 0x80)) 0x80 0xbf c p' q')

  decode_four :
      (b c d : ℕ)
      → start a ≡ ([], inside bits 2 lo hi)
      → lo ≤ b
      → b ≤ hi
      → 0x80 ≤ c
      → c ≤ 0xbf
      → 0x80 ≤ d
      → d ≤ 0xbf
      → decode between (a ∷ b ∷ c ∷ d ∷ rest)
        ≡ (((bits * 64 + (b - 0x80)) * 64 + (c - 0x80)) * 64 + (d - 0x80)) ∷ decode between rest
  unfolding decode
  decode_four b c d e p q p' q' p'' q'' = rw (
    e,
    next_more bits lo hi b p q 1,
    next_more (bits * 64 + (b - 0x80)) 0x80 0xbf c p' q' 0,
    next_last ((bits * 64 + (b - 0x80)) * 64 + (c - 0x80)) 0x80 0xbf d p'' q'',
  )

-- The range of the second byte, by the first.
low_second : ℕ → ℕ
low_second a = if eqb a 0xe0 then 0xa0 else if eqb a 0xf0 then 0x90 else 0x80

high_second : ℕ → ℕ
high_second a = if eqb a 0xed then 0x9f else if eqb a 0xf4 then 0x8f else 0xbf

start_two : (a : ℕ) → 0xc2 ≤ a → a < 0xe0 → start a ≡ ([], inside (a - 0xc0) 0 0x80 0xbf)
unfolding start
start_two a h k = ground arith

start_three :
    (a : ℕ)
    → 0xe0 ≤ a
    → a < 0xf0
    → start a ≡ ([], inside (a - 0xe0) 1 (low_second a) (high_second a))
unfolding start low_second high_second
start_three a h k = ground arith

start_four :
    (a : ℕ)
    → 0xf0 ≤ a
    → a < 0xf5
    → start a ≡ ([], inside (a - 0xf0) 2 (low_second a) (high_second a))
unfolding start low_second high_second
start_four a h k = ground arith

module _ (c : ℕ) (rest : List ℕ) where
  decode_ascii : c < 0x80 → decode between (c ∷ rest) ≡ c ∷ decode between rest
  unfolding decode
  decode_ascii h = ground arith

  decode_upto_7ff :
      0x80 ≤ c
      → c < 0x800
      → decode between ((0xc0 + c / 64) ∷ (0x80 + c % 64) ∷ rest) ≡ c ∷ decode between rest
  decode_upto_7ff h k =
      decode_two (0xc0 + c / 64) (0xc0 + c / 64 - 0xc0) 0x80 0xbf rest (0x80 + c % 64)
        (start_two (0xc0 + c / 64) (omega arith) (omega arith)) (omega arith) (omega arith)
      ∙ ap (λ (n : ℕ). n ∷ decode between rest) (omega arith)

  decode_upto_ffff :
      0x800 ≤ c
      → c < 0x10000
      → IsScalarValue c
      → decode between ((0xe0 + c / 4096) ∷ (0x80 + c / 64 % 64) ∷ (0x80 + c % 64) ∷ rest)
        ≡ c ∷ decode between rest
  decode_upto_ffff h k s =
      decode_three (0xe0 + c / 4096) (0xe0 + c / 4096 - 0xe0) (low_second (0xe0 + c / 4096))
        (high_second (0xe0 + c / 4096)) rest (0x80 + c / 64 % 64) (0x80 + c % 64)
        (start_three (0xe0 + c / 4096) (omega arith) (omega arith))
        (unfold low_second in ground arith) (unfold high_second in ground arith) (omega arith)
        (omega arith)
      ∙ ap (λ (n : ℕ). n ∷ decode between rest) (omega arith)

  decode_upto_10ffff :
      0x10000 ≤ c
      → c < 0x110000
      → decode between (
          (0xf0 + c / 262144)
          ∷ (0x80 + c / 4096 % 64)
          ∷ (0x80 + c / 64 % 64)
          ∷ (0x80 + c % 64)
          ∷ rest)
        ≡ c ∷ decode between rest
  decode_upto_10ffff h k =
      decode_four (0xf0 + c / 262144) (0xf0 + c / 262144 - 0xf0) (low_second (0xf0 + c / 262144))
        (high_second (0xf0 + c / 262144)) rest (0x80 + c / 4096 % 64) (0x80 + c / 64 % 64)
        (0x80 + c % 64) (start_four (0xf0 + c / 262144) (omega arith) (omega arith))
        (unfold low_second in ground arith) (unfold high_second in ground arith) (omega arith)
        (omega arith) (omega arith) (omega arith)
      ∙ ap (λ (n : ℕ). n ∷ decode between rest) (omega arith)

  decode_char : IsScalarValue c → decode between (encode c ++ rest) ≡ c ∷ decode between rest
  unfolding encode
  decode_char s =
      ground (arith, decode_ascii, decode_upto_7ff, decode_upto_ffff, decode_upto_10ffff)

-- Decoding what a text is encoded as returns the text.
pub from_utf8_lossy-encode :
    (cs : List ℕ) → All IsScalarValue cs → from_utf8_lossy (encode_all cs) ≡ cs
unfolding from_utf8_lossy encode_all
from_utf8_lossy-encode [] h = refl
from_utf8_lossy-encode (c ∷ cs) h =
    decode_char c (encode_all cs) h.0 ∙ ap (◌∷◌ c) (from_utf8_lossy-encode cs h.1)

-- A truncated sequence, then an invalid byte, then text.
lossy_example :
    from_utf8_lossy (0xe2 ∷ 0x82 ∷ 0xff ∷ 0x41 ∷ 0xc3 ∷ 0xa9 ∷ [])
    ≡ 0xfffd ∷ 0xfffd ∷ 0x41 ∷ 0xe9 ∷ []
unfolding from_utf8_lossy
lossy_example = refl
