-- ===== src/Bencode/Value.antt =====
-- What the bencode parser builds: the `QVariant`s of src/bencodeparser.cpp. A `QMap` is an
-- association list in the order of first insertion; nothing reads the order of a parsed map.
pub mod Building
use uenclient.Common.{Bool, true, false, Option, none, some, Bytes, same_bytes, ℤ, if◌then◌else◌}

mutual
  pub data Value : Type 0 where
    integer : ℤ → Value
    byte_string : Bytes → Value
    list : Items → Value
    dictionary : Entries → Value

  pub data Items : Type 0 where
    nil : Items
    cons : Value → Items → Items

  pub data Entries : Type 0 where
    end : Entries
    entry : Bytes → Value → Entries → Entries

-- `tmp << item`.
unfoldable pub append_item : Items → Value → Items
append_item nil v = cons v nil
append_item (cons w xs) v = cons w (append_item xs v)

-- `QMap::insert`: the value of a key that is there is replaced.
unfoldable pub insert : Bytes → Value → Entries → Entries
insert k v end = entry k v end
insert k v (entry j w m) = if same_bytes j k then entry k v m else entry j w (insert k v m)

-- `QMap::contains`.
unfoldable pub contains : Entries → Bytes → Bool
contains end k = false
contains (entry j w m) k = if same_bytes j k then true else contains m k

-- `QMap::value`, with `none` for the default-constructed `QVariant` of a missing key.
unfoldable pub value : Entries → Bytes → Option Value
value end k = none
value (entry j w m) k = if same_bytes j k then some w else value m k
