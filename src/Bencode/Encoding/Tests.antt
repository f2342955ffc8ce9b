-- ===== src/Bencode/Encoding/Tests.antt =====
-- Instances of the theorems on the bencode parser, and runs that show its limits.
use uenclient.Common.{suc, ◌≡◌, refl, codes, none, [], ◌∷◌, negsuc, same_bytes, length, arith, ◌<◌}
use uenclient.Bencode.Value.{Value, integer, byte_string, dictionary, Entries, end, entry, contains}
use uenclient.Bencode.Value.Building.{join}
use uenclient.Bencode.Parser.{State, done, fault, parse, info, info_section, int_limit}
use uenclient.Bencode.Encoding.{encode, signed_decimal, encode_string, IsRepresentable}
use uenclient.Bencode.Encoding.RoundTrip.{parse-encode}
use uenclient.Bencode.Encoding.InfoSection.{info_section-encode}
use uenclient.Bencode.Encoding.Truncated.{parse-end_of_key}

abbrev piece_info : Value
piece_info = dictionary (entry (codes "length") (integer (negsuc 11)) end)

abbrev announce : Entries
announce = entry (codes "announce") (byte_string (codes "url")) end

abbrev torrent : Entries
torrent = join announce (entry info piece_info end)

encoded : encode (dictionary torrent) [] ≡ codes "d8:announce3:url4:infod6:lengthi-12eee"
unfolding encode signed_decimal encode_string
encoded = refl

torrent-IsRepresentable : IsRepresentable (dictionary torrent)
unfolding contains same_bytes
torrent-IsRepresentable = (refl, tt, (refl, (refl, omega arith, tt), tt))

torrent-short : length (encode (dictionary torrent) []) < int_limit
unfolding encode signed_decimal encode_string
torrent-short = omega arith

parse-encode_example :
    (t : State) × (parse (encode (dictionary torrent) []) ≡ done torrent t)
    × (t.index ≡ length (encode (dictionary torrent) []))
    × (t.rest ≡ [])
    × (t.err_string ≡ none)
parse-encode_example = parse-encode torrent torrent-IsRepresentable torrent-short

info_section-encode_example :
    (t : State) × (parse (encode (dictionary torrent) []) ≡ done torrent t)
    × (info_section (encode (dictionary torrent) []) t ≡ encode piece_info [])
unfolding same_bytes
info_section-encode_example =
    info_section-encode announce end piece_info torrent-IsRepresentable (refl, tt, tt) tt
      (refl, tt, tt) torrent-short

key-short : suc (length (encode_string (codes "announce") [])) < int_limit
unfolding encode_string
key-short = omega arith

parse-end_of_key_example : parse (b'd' ∷ encode_string (codes "announce") []) ≡ fault
parse-end_of_key_example = parse-end_of_key (codes "announce") key-short
