-- ===== src/MetaInfo/Variant.antt =====
-- How src/metainfo.cpp and src/trackerclient.cpp read a `QVariant`: its conversions, with those that
-- Qt makes between texts and numbers as a parameter.
use uenclient.Common.{
  ℕ, ◌-◌, ◌%◌, ◌^◌, ◌<◌, ◌≡◌, Option, none, some, List, [], Bytes, ℤ, pos, negsuc, ltb,
  if◌then◌else◌, arith,
}
use uenclient.Bencode.Value.{
  Value, integer, byte_string, list, dictionary, Items, nil, Entries, end,
}

-- A `QString`, as its code units.
abbrev pub Text : Type 0
Text = List ℕ

-- What Qt does between types: `fromUtf8`, the number that a text spells, and a number's text.
pub record Conversions : Type 0 where
  pub from_utf8 : Bytes → Text
  pub number_of : Bytes → ℤ
  pub text_of : ℤ → Bytes

-- `unsigned int` of a number: its value modulo 2 ^ 32.
unfoldable pub low_word : ℤ → ℕ
low_word (pos n) = n % 2 ^ 32
low_word (negsuc n) = 2 ^ 32 - 1 - n % 2 ^ 32

-- `int` of a number.
unfoldable pub to_signed : ℕ → ℤ
to_signed w = if ltb w (2 ^ 31) then pos w else negsuc (2 ^ 32 - 1 - w)

-- `toByteArray`.
unfoldable pub to_byte_array : Conversions → Option Value → Bytes
to_byte_array q none = []
to_byte_array q (some (byte_string b)) = b
to_byte_array q (some (integer z)) = q.text_of z
to_byte_array q (some (list xs)) = []
to_byte_array q (some (dictionary m)) = []

-- `toLongLong`.
unfoldable pub to_long_long : Conversions → Option Value → ℤ
to_long_long q none = pos 0
to_long_long q (some (byte_string b)) = q.number_of b
to_long_long q (some (integer z)) = z
to_long_long q (some (list xs)) = pos 0
to_long_long q (some (dictionary m)) = pos 0

-- `toInt`.
unfoldable pub to_int : Conversions → Option Value → ℤ
unfolding to_long_long low_word to_signed
to_int q v = to_signed (low_word (to_long_long q v))

-- `toList`.
unfoldable pub to_list : Option Value → Items
to_list (some (list xs)) = xs
to_list _ = nil

-- `qVariantValue<Dictionary>`.
unfoldable pub to_dictionary : Option Value → Entries
to_dictionary (some (dictionary m)) = m
to_dictionary _ = end

-- A number that an `int` can hold is read as it is.
pub to_int-integer :
    (q : Conversions) (n : ℕ) → n < 2 ^ 31 → to_int q (some (integer (pos n))) ≡ pos n
unfolding to_int
to_int-integer q n h = ground arith
