-- ===== src/Common/Digits.antt =====
-- The texts of numbers to the base 16, and the ends and the filling of texts.
use Prim.Native.Nat.{ℕ, zero, suc, ◌+◌, ◌-◌, ◌/◌, ◌%◌, ◌<◌, ◌≤◌}
use mathlib.Core.Path.{◌≡◌}
use mathlib.Core.List.{[], ◌∷◌, ◌++◌}
use native.Mathlib.Omega.{arith}
use uenclient.Common.Tests.{ltb, if◌then◌else◌}
use uenclient.Common.Lists.{length, drop, replicate, length-append, length-replicate}
use uenclient.Common.ByteArrays.{Bytes}

unfoldable pub hex_digit : ℕ → ℕ
hex_digit d = if ltb d 10 then b'0' + d else b'a' + (d - 10)

-- `QString::number(n, 16)`: at most 16 digits.
unfoldable pub hex_before : ℕ → ℕ → Bytes → Bytes
unfolding hex_digit
hex_before zero n r = r
hex_before (suc f) n r =
    let more = hex_before f (n / 16) (hex_digit (n % 16) ∷ r) in
    if ltb n 16 then hex_digit n ∷ r else more

unfoldable pub right : ℕ → Bytes → Bytes
right n b = drop (length b - n) b

unfoldable pub right_justified : ℕ → ℕ → Bytes → Bytes
right_justified n fill b = replicate (n - length b) fill ++ b

-- A text of 16 bits, filled up to four digits, has four.
hex_before-length : (n : ℕ) → n < 65536 → length (hex_before 4 n []) ≤ 4
unfolding hex_before
hex_before-length n h = ground arith

pub hex_text-length :
    (n : ℕ) → n < 65536 → (fill : ℕ) → length (right_justified 4 fill (hex_before 4 n [])) ≡ 4
unfolding right_justified
hex_text-length n h fill = omega (
  arith,
  hex_before-length n h,
  length-append (replicate (4 - length (hex_before 4 n [])) fill) (hex_before 4 n []),
  length-replicate (4 - length (hex_before 4 n [])) fill,
)
