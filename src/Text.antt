-- ===== src/Text.antt =====
-- `String` and `&str` of the standard library, where the source walks a text: a list of Unicode
-- scalar values. Texts that are only compared whole (MIME types, request ids) are native strings.
pub mod Utf8
pub mod Sort
pub mod Unique
use uclip_daemon.Base.{
  ℕ, zero, suc, ◌+◌, ◌/◌, ◌%◌, List, [], ◌∷◌, ◌++◌, Bool, true, false, ◌&&◌, ltb, eqb,
  if◌then◌else◌,
}

abbrev pub Chars : Type 0
Chars = List ℕ

abbrev pub Bytes : Type 0
Bytes = List ℕ

starts_with_newline : Chars → Bool
starts_with_newline [] = false
starts_with_newline (c ∷ cs) = eqb c b'\n'

-- `s.lines().next().unwrap_or("")`: up to the first `\n` or `\r\n`.
unfoldable pub first_line : Chars → Chars
unfolding starts_with_newline
first_line [] = []
first_line (c ∷ cs) =
    if eqb c b'\n'
    then []
    else if eqb c b'\r' && starts_with_newline cs
    then []
    else c ∷ first_line cs

-- The digits of `n` before those in `acc`; `n + 1` rounds are enough.
digits_from : ℕ → ℕ → Chars → Chars
digits_from zero n acc = acc
digits_from (suc fuel) n acc =
    let rest = digits_from fuel (n / 10) ((48 + n % 10) ∷ acc) in
    if ltb n 10 then (48 + n) ∷ acc else rest

-- `{}` of an unsigned integer.
unfoldable pub decimal : ℕ → Chars
unfolding digits_from
decimal n = digits_from (suc n) n []

-- `parts.join(sep)`
unfoldable pub join : Chars → List Chars → Chars
join sep [] = []
join sep (p ∷ []) = p
join sep (p ∷ q ∷ rest) = p ++ (sep ++ join sep (q ∷ rest))
