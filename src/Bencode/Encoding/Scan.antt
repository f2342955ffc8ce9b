-- ===== src/Bencode/Encoding/Scan.antt =====
-- What the parser makes of the encoding of a number and of a byte string.
use uenclient.Common.{
  ℕ, zero, suc, ◌+◌, ◌/◌, ◌%◌, ◌≤◌, ◌<◌, ◌≡◌, refl, ap, ap₂, ◌∙◌, true, false, none, ◌∷◌, ◌++◌,
  Bytes, ℤ, pos, negsuc, arith, length, length-append, take-append_length, drop-append_length, ltb,
  ltb→lt, lt→ltb, Bool-cases, inl, inr,
}
use uenclient.Bencode.Parser.{
  State, Outcome, done, next, move, scan_size, cut, get_byte_string, scan_integer, integer_at,
  get_integer, int_limit,
}
use uenclient.Bencode.Encoding.{digits_before, decimal, signed_decimal, encode_string, InRange}
use uenclient.Bencode.Encoding.Digits.{
  width, length-digits_before, scan_size-digits_before, scan_integer-digits_before,
}

-- The call returns `a`, leaves `r` to read, and has moved the index by what it read. Unless it may
-- have met the key "info", it has left the info section alone.
pub record Reads {ℓ} {A : Type ℓ} (Quiet : Type 0) (s : State) (r : Bytes) (a : A) (o : Outcome A)
    : Type ℓ where
  pub after : State
  pub returned : o ≡ done a after
  pub rest_is : after.rest ≡ r
  pub position : after.index + length r ≡ s.index + length s.rest
  pub err_is : after.err_string ≡ s.err_string
  pub info_start_is : Quiet → after.info_start ≡ s.info_start
  pub info_length_is : Quiet → after.info_length ≡ s.info_length

pub digits_before-head :
    (f n : ℕ) (r : Bytes)
    → n < f
    → (d : ℕ) × (r' : Bytes) × (d < 10) × (digits_before f n r ≡ (b'0' + d) ∷ r')
unfolding digits_before
digits_before-head zero n r h = absurd (omega arith)
digits_before-head (suc f) n r h = elim (Bool-cases (ltb n 10)) [
  | inl e ↦ (n, r, ltb→lt n 10 e, rw e)
  | inr e ↦
      let big : 10 ≤ n = ground arith in
      rw e (digits_before-head f (n / 10) ((b'0' + n % 10) ∷ r) (omega arith))
]

module _ (s : State) (r : Bytes) where
  cut-append :
      (b : Bytes) (t : State)
      → t.rest ≡ b ++ r
      → t.index + length b < int_limit
      → cut (length b) t ≡ done b (move t (t.index + length b) r)
  unfolding cut
  cut-append b t e h =
      rw (lt→ltb _ _ h, e)
        (ap₂ (λ (x y : Bytes). done x (move t (t.index + length b) y)) (take-append_length b r)
          (drop-append_length b r))

  length-encode_string :
      (b : Bytes)
      → length (encode_string b r) ≡ width (suc (length b)) (length b) + (length b + length r + 1)
  unfolding encode_string decimal
  length-encode_string b =
      length-digits_before (suc (length b)) (length b) (b':' ∷ (b ++ r))
      ∙ omega (arith, length-append b r)

  get_byte_string-encode_string :
      (b : Bytes)
      → s.rest ≡ encode_string b r
      → s.index + length s.rest < int_limit
      → get_byte_string s
        ≡ done b (move s (s.index + width (suc (length b)) (length b) + 1 + length b) r)
  unfolding get_byte_string encode_string decimal
  get_byte_string-encode_string b e h =
      let n : ℕ = length b in
      let w : ℕ = width (suc n) n in
      let len : length s.rest ≡ w + (n + length r + 1) = ap length e ∙ length-encode_string b in
      ap (λ (x : Bytes). next (scan_size s s.index none x) cut) e
      ∙ ap (λ o. next o cut)
          (scan_size-digits_before s (suc n) n s.index (b':' ∷ (b ++ r)) (omega arith)
            (omega arith))
      ∙ cut-append b (move s (s.index + w + 1) (b ++ r)) refl (omega arith)

  pub encode_string-Reads :
      (Q : Type 0) (b : Bytes)
      → s.rest ≡ encode_string b r
      → s.index + length s.rest < int_limit
      → Reads Q s r b (get_byte_string s)
  encode_string-Reads Q b e h = record {
    after = move s (s.index + width (suc (length b)) (length b) + 1 + length b) r;
    returned = get_byte_string-encode_string b e h;
    rest_is = refl;
    position = omega (arith, ap length e, length-encode_string b);
    err_is = refl;
    info_start_is = λ q. refl;
    info_length_is = λ q. refl;
  }

  get_integer-signed_decimal :
      (z : ℤ)
      → InRange z
      → s.rest ≡ b'i' ∷ signed_decimal z (b'e' ∷ r)
      → (i : ℕ) × (get_integer s ≡ done z (move s i r)) × (i + length r ≡ s.index + length s.rest)
  unfolding get_integer integer_at signed_decimal decimal
  get_integer-signed_decimal (pos n) h e =
      let w : ℕ = width (suc n) n in
      (
        s.index + 1 + w + 1,
        ap (integer_at s) e
            ∙ scan_integer-digits_before s (suc n) n (s.index + 1) false (b'e' ∷ r) (omega arith) h
            ∙ unfold scan_integer in refl,
        omega (arith, ap length e, length-digits_before (suc n) n (b'e' ∷ r)),
      )
  get_integer-signed_decimal (negsuc n) h e =
      let w : ℕ = width (suc (suc n)) (suc n) in
      (
        s.index + 1 + 1 + w + 1,
        ap (integer_at s) e
            ∙ scan_integer-digits_before s (suc (suc n)) (suc n) (s.index + 1 + 1) true (b'e' ∷ r)
                (omega arith) h
            ∙ unfold scan_integer in refl,
        omega (arith, ap length e, length-digits_before (suc (suc n)) (suc n) (b'e' ∷ r)),
      )

  pub signed_decimal-Reads :
      (Q : Type 0) (z : ℤ)
      → InRange z
      → s.rest ≡ b'i' ∷ signed_decimal z (b'e' ∷ r)
      → Reads Q s r z (get_integer s)
  signed_decimal-Reads Q z h e =
      let (i, got, at) = get_integer-signed_decimal z h e in
      record {
        after = move s i r;
        returned = got;
        rest_is = refl;
        position = at;
        err_is = refl;
        info_start_is = λ q. refl;
        info_length_is = λ q. refl;
      }
