-- ===== src/Base/Format.antt =====
-- `std::setw`, `std::setfill` and `std::hex`.
use Prim.Native.Nat.{ℕ, zero, suc, ◌+◌, ◌-◌, ◌/◌, ◌%◌, ◌<◌}
use mathlib.Core.Logic.{◌≢◌}
use native.Mathlib.Omega.{arith}
use mathlib.Core.Logic.{inl, inr}
use mathlib.Core.List.{[], ◌∷◌, ◌++◌}
use fineftp_server.Base.Tests.{ltb, if◌then◌else◌, Bool-cases}
use fineftp_server.Base.Lists.{length, replicate}
use fineftp_server.Base.Text.{Bytes, All, All-append, All-map}

-- A field of a width: the fill stands in front, and a longer text is not cut.
unfoldable pub set_w : ℕ → ℕ → Bytes → Bytes
set_w width fill s = replicate (width - length s) fill ++ s

hex_digit : ℕ → ℕ
hex_digit d = if ltb d 10 then 48 + d else 87 + d

hex_from : ℕ → ℕ → Bytes
unfolding hex_digit
hex_from zero n = []
hex_from (suc f) n =
    let more = hex_from f (n / 16) ++ hex_digit (n % 16) ∷ [] in
    if ltb n 16 then hex_digit n ∷ [] else more

-- A 32-bit number has eight digits at most.
unfoldable pub to_hex : ℕ → Bytes
unfolding hex_from
to_hex n = hex_from 8 n

module _ {κ} (P : ℕ → Type κ) where
  replicate-All : (n c : ℕ) → P c → All P (replicate n c)
  replicate-All zero c h = tt
  replicate-All (suc n) c h = (h, replicate-All n c h)

  pub set_w-All : (width fill : ℕ) (s : Bytes) → P fill → All P s → All P (set_w width fill s)
  unfolding set_w
  set_w-All width fill s f h = All-append P _ s (replicate-All (width - length s) fill f) h

hex_digit_high : (d : ℕ) → 47 < hex_digit d
unfolding hex_digit
hex_digit_high d = ground arith

hex_from-All : (f n : ℕ) → All (λ c. 47 < c) (hex_from f n)
unfolding hex_from
hex_from-All zero n = tt
hex_from-All (suc f) n = elim (Bool-cases (ltb n 16)) [
  | inl e ↦ rw e (hex_digit_high n, tt)
  | inr e ↦ rw e (All-append _ _ _ (hex_from-All f (n / 16)) (hex_digit_high (n % 16), tt))
]

-- The digits are no control characters.
pub to_hex-All : (n : ℕ) → All (λ c. 47 < c) (to_hex n)
unfolding to_hex
to_hex-All n = hex_from-All 8 n

pub to_hex-NoNul : (n : ℕ) → All (λ c. c ≢ 0) (to_hex n)
to_hex-NoNul n = All-map _ _ _ (λ c h. omega (arith, h)) (to_hex-All n)
