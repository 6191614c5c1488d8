-- ===== src/UnitTests.antt =====
-- The unit tests of the repository, as Boolean functions on the model, each with its evaluation. A
-- map is visited in the order in which the test fills it, and a copy is stored at noon.
mod Mime
mod History
mod Reads
mod Snapshot
mod Types
mod Loop
mod Socket
mod Client
use mathlib.Core.List.Permᴰ
use uclip_daemon.Base.{
  ℕ, String, List, [], ◌∷◌, Bool, true, false, ◌&&◌, ◌||◌, Option, none, some, eqb,
}
use uclip_daemon.Base.Eq.{Eq, string_eq, nat_eq, list_beq}
use uclip_daemon.Base.Order.{codes}
use uclip_daemon.Text.{Chars}
use uclip_daemon.History.Content.{BlobOrder}
use uclip_daemon.History.State.{SystemTime, since_epoch}

abbrev pub in_order : BlobOrder
in_order = record { order = λ m. m; order_perm = λ m. Permᴰ.refl m }

abbrev pub noon : SystemTime
noon = since_epoch 1700000000000000000

-- `unwrap`, which fails the test on `none`.
abbrev pub expect {ℓ} : {A : Type ℓ} → Option A → (A → Bool) → Bool
expect none test = false
expect (some a) test = test a

abbrev pub is_none {ℓ} : {A : Type ℓ} → Option A → Bool
is_none none = true
is_none (some a) = false

abbrev pub says : Chars → String → Bool
says s t = list_beq s (codes t)

abbrev pub starts : Chars → Chars → Bool
starts s [] = true
starts [] (d ∷ t) = false
starts (c ∷ s) (d ∷ t) = eqb c d && starts s t

-- `contains`, on text.
abbrev pub has_part : Chars → Chars → Bool
has_part [] t = starts [] t
has_part (c ∷ s) t = starts (c ∷ s) t || has_part s t
