-- ===== src/Bencode/Encoding.antt =====
-- The bencode format as its specification describes it, written down independently of the parser of
-- src/bencodeparser.cpp: `encode v r` is the encoding of `v` followed by `r`.
mod Digits
mod Scan
mod Shapes
mod Steps
mod Loops
mod Keys
pub mod RoundTrip
pub mod InfoSection
pub mod Truncated
mod Tests
use uenclient.Common.{
  ℕ, zero, suc, ◌+◌, ◌/◌, ◌%◌, ◌<◌, ◌≡◌, Bool, true, false, not, ◌&&◌, List, [], ◌∷◌, ◌++◌, Bytes,
  same_bytes, ℤ, pos, negsuc, length, ltb, if◌then◌else◌,
}
use uenclient.Bencode.Value.{
  Value, integer, byte_string, list, dictionary, Items, nil, cons, Entries, end, entry, contains,
}
use uenclient.Bencode.Parser.{int64_limit, info}

-- The decimal digits of `n` before `r`, with fuel above the number of digits.
unfoldable pub digits_before : ℕ → ℕ → Bytes → Bytes
digits_before zero n r = r
digits_before (suc f) n r =
    let more = digits_before f (n / 10) ((b'0' + n % 10) ∷ r) in
    if ltb n 10 then (b'0' + n) ∷ r else more

unfoldable pub decimal : ℕ → Bytes → Bytes
unfolding digits_before
decimal n r = digits_before (suc n) n r

unfoldable pub signed_decimal : ℤ → Bytes → Bytes
unfolding decimal
signed_decimal (pos n) r = decimal n r
signed_decimal (negsuc n) r = b'-' ∷ decimal (suc n) r

unfoldable pub encode_string : Bytes → Bytes → Bytes
unfolding decimal
encode_string b r = decimal (length b) (b':' ∷ (b ++ r))

unfoldable mutual
  pub encode : Value → Bytes → Bytes
  encode (integer z) r = b'i' ∷ signed_decimal z (b'e' ∷ r)
  encode (byte_string b) r = encode_string b r
  encode (list xs) r = b'l' ∷ encode_items xs (b'e' ∷ r)
  encode (dictionary m) r = b'd' ∷ encode_entries m (b'e' ∷ r)

  pub encode_items : Items → Bytes → Bytes
  encode_items nil r = r
  encode_items (cons v xs) r = encode v (encode_items xs r)

  pub encode_entries : Entries → Bytes → Bytes
  encode_entries end r = r
  encode_entries (entry k v m) r = encode_string k (encode v (encode_entries m r))

abbrev pub InRange : ℤ → Type 0
InRange (pos n) = n < int64_limit
InRange (negsuc n) = suc n < int64_limit

-- What a `qint64` and a `QMap` can hold: integers in range, and keys that occur once.
abbrev mutual
  pub IsRepresentable : Value → Type 0
  IsRepresentable (integer z) = InRange z
  IsRepresentable (byte_string b) = Unit
  IsRepresentable (list xs) = AllRepresentable xs
  IsRepresentable (dictionary m) = IsMap m

  pub AllRepresentable : Items → Type 0
  AllRepresentable nil = Unit
  AllRepresentable (cons v xs) = IsRepresentable v × AllRepresentable xs

  pub IsMap : Entries → Type 0
  IsMap end = Unit
  IsMap (entry k v m) = (contains m k ≡ false) × IsRepresentable v × IsMap m

-- No dictionary in the value has the key "info".
abbrev mutual
  pub HasNoInfo : Value → Type 0
  HasNoInfo (integer z) = Unit
  HasNoInfo (byte_string b) = Unit
  HasNoInfo (list xs) = AllHaveNoInfo xs
  HasNoInfo (dictionary m) = IsInfoFree m

  pub AllHaveNoInfo : Items → Type 0
  AllHaveNoInfo nil = Unit
  AllHaveNoInfo (cons v xs) = HasNoInfo v × AllHaveNoInfo xs

  pub IsInfoFree : Entries → Type 0
  IsInfoFree end = Unit
  IsInfoFree (entry k v m) = (same_bytes k info ≡ false) × HasNoInfo v × IsInfoFree m
