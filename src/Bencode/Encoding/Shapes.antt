-- ===== src/Bencode/Encoding/Shapes.antt =====
-- The first byte of an encoding, and which member functions of the parser give up at it.
use uenclient.Common.{
  ℕ, suc, ◌+◌, ◌≤◌, ◌<◌, ◌≡◌, refl, ap, sym, ◌∙◌, false, none, ◌∷◌, ◌++◌, Bytes, arith, length,
  length-append, ◌==◌, pos, negsuc,
}
use uenclient.Bencode.Value.{
  Value, integer, byte_string, list, dictionary, Items, nil, cons, Entries, end, entry,
}
use uenclient.Bencode.Parser.{
  State, refused, next, move, is_digit, opening, scan_size, cut, get_byte_string, integer_at,
  get_integer, get_list, list_loop, get_value,
}
use uenclient.Bencode.Encoding.{
  encode, encode_items, encode_entries, encode_string, decimal, signed_decimal,
}
use uenclient.Bencode.Encoding.Digits.{length-digits_before}
use uenclient.Bencode.Encoding.Scan.{digits_before-head}

-- What the parser does at a byte that opens a value: it is no 'e'.
pub encode_string-head :
    (b r : Bytes) → (d : ℕ) × (cs : Bytes) × (d < 10) × (encode_string b r ≡ (b'0' + d) ∷ cs)
unfolding encode_string decimal
encode_string-head b r =
    digits_before-head (suc (length b)) (length b) (b':' ∷ (b ++ r)) (omega arith)

pub encode-head :
    (v : Value) (r : Bytes) → (c : ℕ) × (cs : Bytes) × ((c == b'e') ≡ false) × (encode v r ≡ c ∷ cs)
unfolding encode
encode-head (integer z) r = (b'i', _, refl, refl)
encode-head (byte_string b) r =
    let (d, cs, small, e) = encode_string-head b r in (b'0' + d, cs, ground arith, e)
encode-head (list xs) r = (b'l', _, refl, refl)
encode-head (dictionary m) r = (b'd', _, refl, refl)

pub encode_items-head :
    (xs : Items) (c : ℕ) (cs : Bytes) → (d : ℕ) × (ds : Bytes) × (encode_items xs (c ∷ cs) ≡ d ∷ ds)
unfolding encode
encode_items-head nil c cs = (c, cs, refl)
encode_items-head (cons v xs) c cs =
    let (d, ds, _, e) = encode-head v (encode_items xs (c ∷ cs)) in (d, ds, e)

pub encode_entries-head :
    (m : Entries) (c : ℕ) (cs : Bytes)
    → (d : ℕ) × (ds : Bytes) × (encode_entries m (c ∷ cs) ≡ d ∷ ds)
unfolding encode
encode_entries-head end c cs = (c, cs, refl)
encode_entries-head (entry k v m) c cs =
    let (d, ds, _, e) = encode_string-head k (encode v (encode_entries m (c ∷ cs))) in
    (b'0' + d, ds, e)

module _ (s : State) (c : ℕ) (cs : Bytes) (at : s.rest ≡ c ∷ cs) where
  pub get_integer-refused : (c == b'i') ≡ false → get_integer s ≡ refused s
  unfolding get_integer integer_at
  get_integer-refused no_i = ap (integer_at s) at ∙ rw no_i

  pub get_byte_string-refused : is_digit c ≡ false → get_byte_string s ≡ refused s
  unfolding get_byte_string scan_size
  get_byte_string-refused no_digit =
      ap (λ (x : Bytes). next (scan_size s s.index none x) cut) at
      ∙ rw no_digit (ap (λ (x : Bytes). refused (move s s.index x)) (sym at))

  pub get_list-refused : (f : ℕ) → (c == b'l') ≡ false → get_list (suc f) s ≡ refused s
  unfolding get_value
  get_list-refused f no_l = ap (opening b'l' s (λ t. list_loop f t nil)) at ∙ rw no_l

mutual
  unfolding encode signed_decimal decimal encode_string

  length-encode-lt : (v : Value) (r : Bytes) → length r < length (encode v r)
  length-encode-lt (integer (pos n)) r = omega (arith, length-digits_before (suc n) n (b'e' ∷ r))
  length-encode-lt (integer (negsuc n)) r =
      omega (arith, length-digits_before (suc (suc n)) (suc n) (b'e' ∷ r))
  length-encode-lt (byte_string b) r =
      omega (
        arith,
        length-digits_before (suc (length b)) (length b) (b':' ∷ (b ++ r)),
        length-append b r,
      )
  length-encode-lt (list xs) r = omega (arith, length-encode_items-le xs (b'e' ∷ r))
  length-encode-lt (dictionary m) r = omega (arith, length-encode_entries-le m (b'e' ∷ r))

  length-encode_items-le : (xs : Items) (r : Bytes) → length r ≤ length (encode_items xs r)
  length-encode_items-le nil r = omega arith
  length-encode_items-le (cons v xs) r =
      omega (arith, length-encode-lt v (encode_items xs r), length-encode_items-le xs r)

  length-encode_entries-le : (m : Entries) (r : Bytes) → length r ≤ length (encode_entries m r)
  length-encode_entries-le end r = omega arith
  length-encode_entries-le (entry k v m) r =
      let x : Bytes = encode v (encode_entries m r) in
      omega (
        arith,
        length-digits_before (suc (length k)) (length k) (b':' ∷ (k ++ x)),
        length-append k x,
        length-encode-lt v (encode_entries m r),
        length-encode_entries-le m r,
      )

pub length-lt-encode : (v : Value) (r : Bytes) → length r < length (encode v r)
length-lt-encode v r = length-encode-lt v r

pub length-lt-encode_string : (b r : Bytes) → length r < length (encode_string b r)
unfolding encode_string decimal
length-lt-encode_string b r =
    omega
      (arith, length-digits_before (suc (length b)) (length b) (b':' ∷ (b ++ r)), length-append b r)
