-- ===== src/Io/Bounded.antt =====
-- src/clipboard/io.rs: `read_bounded` and its limit.
use uclip_daemon.Base.{
  ℕ, zero, suc, ◌+◌, ◌≤◌, ◌≡◌, refl, sym, ap, ◌∙◌, [], ◌∷◌, false, take, length, length-take,
  take_of_length-le, ltb, arith, if◌then◌else◌, Bool-cases, inl, inr,
}
use mathlib.Core.Path.{ap₂}
use uclip_daemon.Text.{Bytes}
use uclip_daemon.Config.{max_content_bytes}
use uclip_daemon.App.{delivers}
use uclip_daemon.Io.{read, read_bounded}

take-take : (m n : ℕ) (xs : Bytes) → m ≤ n → take m (take n xs) ≡ take m xs
take-take zero n xs h = refl
take-take (suc m) zero xs h = absurd (omega arith)
take-take (suc m) (suc n) [] h = refl
take-take (suc m) (suc n) (x ∷ xs) h = ap (◌∷◌ x) (take-take m n xs (omega arith))

module _ (limit : ℕ) (bytes : Bytes)
    (under : ltb limit (length (take (limit + 1) bytes)) ≡ false) where
  short : length bytes ≤ limit
  short = ground (arith, length-take (limit + 1) bytes)

  within : length bytes ≤ limit + 1
  within = omega (arith, short)

cut :
    (limit : ℕ) (bytes : Bytes)
    → (if ltb limit (length (take (limit + 1) bytes))
        then take limit (take (limit + 1) bytes)
        else take (limit + 1) bytes)
      ≡ take limit bytes
cut limit bytes = elim (Bool-cases (ltb limit (length (take (limit + 1) bytes)))) [
  | inl over ↦ rw over (take-take limit (limit + 1) bytes (omega arith))
  | inr under ↦ rw under (
      take_of_length-le (limit + 1) bytes (within limit bytes under)
      ∙ sym (take_of_length-le limit bytes (short limit bytes under)))
]

over_limit :
    (limit : ℕ) (bytes : Bytes)
    → ltb limit (length (take (limit + 1) bytes)) ≡ ltb limit (length bytes)
over_limit limit bytes = ground (arith, length-take (limit + 1) bytes)

-- Reading a payload keeps its first `max_content_bytes` bytes, and reports a cut exactly if there
-- were more.
pub read_bounded_lem :
    (bytes : Bytes)
    → read_bounded (delivers bytes)
      ≡ read (take max_content_bytes bytes) (ltb max_content_bytes (length bytes))
unfolding read_bounded
read_bounded_lem bytes = ap₂ read (cut max_content_bytes bytes) (over_limit max_content_bytes bytes)
