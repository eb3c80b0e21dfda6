-- ===== src/Base/Decimal.antt =====
-- `std::to_string` and `operator<<` of an unsigned number: its decimal digits.
use Prim.Native.Nat.{ℕ, zero, suc, ◌+◌, ◌-◌, ◌*◌, ◌/◌, ◌%◌, ◌<◌}
use mathlib.Core.Path.{◌≡◌, refl}
use mathlib.Core.Logic.{inl, inr}
use mathlib.Core.List.{[], ◌∷◌, ◌++◌}
use native.Mathlib.Omega.{arith}
use fineftp_server.Base.Tests.{ltb, if◌then◌else◌, Bool-cases}
use fineftp_server.Base.Text.{Bytes, All, All-append}

digits_from : ℕ → ℕ → Bytes
digits_from zero n = []
digits_from (suc f) n =
    let more = digits_from f (n / 10) ++ (48 + n % 10) ∷ [] in
    if ltb n 10 then (48 + n) ∷ [] else more

unfoldable pub to_string : ℕ → Bytes
unfolding digits_from
to_string n = digits_from (suc n) n

-- The number that a run of digits writes, after the value read so far.
unfoldable pub read_digits : ℕ → Bytes → ℕ
read_digits acc [] = acc
read_digits acc (c ∷ s) = read_digits (acc * 10 + (c - 48)) s

read_digits-append :
    (acc : ℕ) (s t : Bytes) → read_digits acc (s ++ t) ≡ read_digits (read_digits acc s) t
unfolding read_digits
read_digits-append acc [] t = refl
read_digits-append acc (c ∷ s) t = read_digits-append (acc * 10 + (c - 48)) s t

read_digits-digits_from : (f n : ℕ) → n < f → read_digits 0 (digits_from f n) ≡ n
unfolding read_digits digits_from
read_digits-digits_from zero n h = absurd (omega arith)
read_digits-digits_from (suc f) n h = ground (
  arith,
  read_digits-digits_from f (n / 10),
  read_digits-append 0 (digits_from f (n / 10)) ((48 + n % 10) ∷ []),
)

-- Reading the digits of a number gives the number back.
pub read_digits-to_string : (n : ℕ) → read_digits 0 (to_string n) ≡ n
unfolding to_string
read_digits-to_string n = read_digits-digits_from (suc n) n (omega arith)

digits_from-All : (f n : ℕ) → All (λ c. (47 < c) × (c < 58)) (digits_from f n)
unfolding digits_from
digits_from-All zero n = tt
digits_from-All (suc f) n = elim (Bool-cases (ltb n 10)) [
  | inl e ↦ rw e (ground (arith, e), tt)
  | inr e ↦ rw e (All-append _ _ _ (digits_from-All f (n / 10)) (ground arith, tt))
]

-- A number is written in digits.
pub to_string-All : (n : ℕ) → All (λ c. (47 < c) × (c < 58)) (to_string n)
unfolding to_string
to_string-All n = digits_from-All (suc n) n
