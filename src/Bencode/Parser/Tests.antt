-- ===== src/Bencode/Parser/Tests.antt =====
-- Runs of the parser on concrete contents.
use uenclient.Common.{◌≡◌, ◌≢◌, refl, codes, none, [], negsuc, same_bytes, Bytes}
use uenclient.Bencode.Value.{integer, byte_string, dictionary, end, entry, append_item, insert}
use uenclient.Bencode.Parser.{
  done, fault, out_of_fuel, get_value, get_integer, get_byte_string, parse,
}
use uenclient.Bencode.Parser.Termination.{parse-ne-out_of_fuel}

abbrev torrent : Bytes
torrent = codes "d8:announce3:url4:infod6:lengthi-12eee"

parsed :
    parse torrent
    ≡ done
        (entry (codes "announce") (byte_string (codes "url")) (
          entry (codes "info") (dictionary (entry (codes "length") (integer (negsuc 11)) end)) end))
        (record { index = 38; rest = []; info_start = 22; info_length = 15; err_string = none })
unfolding parse get_value get_integer get_byte_string insert append_item same_bytes
parsed = refl

-- A content that ends too early is read past its end.
cut_short : parse (codes "d1:a") ≡ fault
unfolding parse get_value get_integer get_byte_string insert append_item same_bytes
cut_short = refl

-- Any content will do.
parse-ne-out_of_fuel_example : parse (codes "d1:al") ≢ out_of_fuel
parse-ne-out_of_fuel_example = parse-ne-out_of_fuel (codes "d1:al")
