-- ===== src/Bencode/Encoding/Digits.antt =====
-- The scanning loops of the parser read a decimal number back.
use uenclient.Common.{
  ℕ, zero, suc, ◌+◌, ◌*◌, ◌/◌, ◌%◌, ◌≤◌, ◌<◌, ◌≡◌, ap, ◌∙◌, Bool, Option, none, some, ◌∷◌, Bytes,
  arith, length, ltb, if◌then◌else◌, Bool-cases, inl, inr, ltb→lt, ap₂,
}
use uenclient.Bencode.Parser.{State, scan_size, scan_integer, shift, int_limit, int64_limit}
use uenclient.Bencode.Encoding.{digits_before}

abbrev pub width : ℕ → ℕ → ℕ
width zero n = 0
width (suc f) n = if ltb n 10 then 1 else width f (n / 10) + 1

pub length-digits_before :
    (f n : ℕ) (r : Bytes) → length (digits_before f n r) ≡ width f n + length r
unfolding digits_before
length-digits_before zero n r = omega arith
length-digits_before (suc f) n r = elim (Bool-cases (ltb n 10)) [
  | inl e ↦ rw e (omega arith)
  | inr e ↦ rw e (omega (arith, length-digits_before f (n / 10) ((b'0' + n % 10) ∷ r)))
]

scan_size-digit :
    (s : State) (i d : ℕ) (size : Option ℕ) (r : Bytes)
    → d < 10
    → shift size (b'0' + d) < int_limit
    → scan_size s i size ((b'0' + d) ∷ r) ≡ scan_size s (i + 1) (some (shift size (b'0' + d))) r
unfolding scan_size
scan_size-digit s i d none r h l = ground arith
scan_size-digit s i d (some n) r h l = ground arith

pub scan_size-digits_before :
    (s : State) (f n i : ℕ) (r : Bytes)
    → n < f
    → n < int_limit
    → scan_size s i none (digits_before f n r) ≡ scan_size s (i + width f n) (some n) r
unfolding digits_before
scan_size-digits_before s zero n i r h l = absurd (omega arith)
scan_size-digits_before s (suc f) n i r h l = elim (Bool-cases (ltb n 10)) [
  | inl e ↦ rw e (
      scan_size-digit s i n none r (omega (arith, ltb→lt n 10 e)) (omega (arith, ltb→lt n 10 e))
      ∙ ap (λ (k : ℕ). scan_size s (i + 1) (some k) r) (omega arith))
  | inr e ↦
      let big : 10 ≤ n = ground arith in
      let low : n % 10 < 10 = omega arith in
      let whole : n / 10 * 10 + n % 10 ≡ n = omega arith in
      rw e (
        scan_size-digits_before s f (n / 10) i ((b'0' + n % 10) ∷ r) (omega arith) (omega arith)
        ∙ scan_size-digit s (i + width f (n / 10)) (n % 10) (some (n / 10)) r low (omega arith)
        ∙ ap₂ (λ (j k : ℕ). scan_size s j (some k) r) (omega arith) (omega arith))
]

scan_integer-digit :
    (s : State) (i d : ℕ) (negative : Bool) (num : Option ℕ) (r : Bytes)
    → d < 10
    → shift num (b'0' + d) < int64_limit
    → scan_integer s i negative num ((b'0' + d) ∷ r)
      ≡ scan_integer s (i + 1) negative (some (shift num (b'0' + d))) r
unfolding scan_integer
scan_integer-digit s i d negative none r h l = ground arith
scan_integer-digit s i d negative (some n) r h l = ground arith

pub scan_integer-digits_before :
    (s : State) (f n i : ℕ) (negative : Bool) (r : Bytes)
    → n < f
    → n < int64_limit
    → scan_integer s i negative none (digits_before f n r)
      ≡ scan_integer s (i + width f n) negative (some n) r
unfolding digits_before
scan_integer-digits_before s zero n i negative r h l = absurd (omega arith)
scan_integer-digits_before s (suc f) n i negative r h l = elim (Bool-cases (ltb n 10)) [
  | inl e ↦ rw e (
      scan_integer-digit s i n negative none r (omega (arith, ltb→lt n 10 e))
        (omega (arith, ltb→lt n 10 e))
      ∙ ap (λ (k : ℕ). scan_integer s (i + 1) negative (some k) r) (omega arith))
  | inr e ↦
      let big : 10 ≤ n = ground arith in
      let low : n % 10 < 10 = omega arith in
      rw e (
        scan_integer-digits_before s f (n / 10) i negative ((b'0' + n % 10) ∷ r) (omega arith)
          (omega arith)
        ∙ scan_integer-digit s (i + width f (n / 10)) (n % 10) negative (some (n / 10)) r low
            (omega arith)
        ∙ ap₂ (λ (j k : ℕ). scan_integer s j negative (some k) r) (omega arith) (omega arith))
]
