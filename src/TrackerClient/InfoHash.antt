-- ===== src/TrackerClient/InfoHash.antt =====
-- The info hash in the query of src/trackerclient.cpp, read back as a url's percent encoding is.
use uenclient.Common.{
  ℕ, zero, suc, ◌+◌, ◌-◌, ◌*◌, ◌/◌, ◌%◌, ◌<◌, ◌≡◌, refl, ap, ◌∙◌, Bool, true, false, ◌&&◌, Option,
  none, some, [], ◌∷◌, ◌++◌, Bytes, All, arith, subst, le_or_lt, inl, inr, ltb, ◌==◌, same_bytes,
  same_bytes_iff, if◌then◌else◌,
}
use uenclient.Common.Digits.{hex_digit}
use uenclient.TrackerClient.Query.{encoded_byte, encoded_sum}

-- A hexadecimal digit's value.
abbrev pub digit_value : ℕ → ℕ
digit_value c = if ltb c b'a' then c - b'0' else c - b'a' + 10

-- `%` and two digits for each byte; anything else is no percent encoding of bytes.
abbrev pub percent_decoded : Bytes → Option Bytes
percent_decoded [] = some []
percent_decoded (p ∷ h ∷ l ∷ text) =
    let rest = percent_decoded text in
    if p == b'%'
    then elim rest [ none ↦ none | some b ↦ some ((digit_value h * 16 + digit_value l) ∷ b) ]
    else none
percent_decoded _ = none

split_and : (a b : Bool) → (a && b) ≡ true → (a ≡ true) × (b ≡ true)
split_and true b h = (refl, h)
split_and false b h = cc

abbrev two_digits : ℕ → Bytes
two_digits c = b'%' ∷ hex_digit (c / 16) ∷ hex_digit (c % 16) ∷ []

-- The first bytes are written with their two digits.
digits_agree : ℕ → Bool
digits_agree zero = true
digits_agree (suc c) = same_bytes (encoded_byte c) (two_digits c) && digits_agree c

digits_agree-byte : digits_agree 256 ≡ true
unfolding digits_agree same_bytes encoded_byte
digits_agree-byte = refl

digits_agree-two_digits :
    (count : ℕ) → digits_agree count ≡ true → (c : ℕ) → c < count → encoded_byte c ≡ two_digits c
unfolding digits_agree
digits_agree-two_digits zero agree c below = absurd (omega arith)
digits_agree-two_digits (suc last) agree c below =
    let (here, earlier) =
      split_and (same_bytes (encoded_byte last) (two_digits last)) (digits_agree last) agree in
    elim (le_or_lt last c) [
      | inl e ↦
          let same : last ≡ c = omega arith in
          subst (λ (n : ℕ). encoded_byte n ≡ two_digits n) same
            ((same_bytes_iff (encoded_byte last) (two_digits last)).0 here)
      | inr e ↦ digits_agree-two_digits last earlier c e
    ]

encoded_byte-two_digits : (c : ℕ) → c < 256 → encoded_byte c ≡ two_digits c
encoded_byte-two_digits c h = digits_agree-two_digits 256 digits_agree-byte c h

digit_value-hex_digit : (d : ℕ) → d < 16 → digit_value (hex_digit d) ≡ d
unfolding hex_digit
digit_value-hex_digit d h = ground arith

-- The tracker that decodes the query's percent encoding has the info hash, byte for byte.
pub percent_decoded-encoded_sum :
    (hash : Bytes) → All (λ (c : ℕ). c < 256) hash → percent_decoded (encoded_sum hash) ≡ some hash
unfolding encoded_sum
percent_decoded-encoded_sum [] h = refl
percent_decoded-encoded_sum (c ∷ cs) h =
    let first : digit_value (hex_digit (c / 16)) * 16 + digit_value (hex_digit (c % 16)) ≡ c =
      omega (
        arith,
        digit_value-hex_digit (c / 16) (omega (arith, h.0)),
        digit_value-hex_digit (c % 16) (omega (arith, h.0)),
      ) in
    ap (λ (b : Bytes). percent_decoded (b ++ encoded_sum cs)) (encoded_byte-two_digits c h.0)
    ∙ rw (percent_decoded-encoded_sum cs h.1, first)
