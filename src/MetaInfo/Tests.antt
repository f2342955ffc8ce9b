-- ===== src/MetaInfo/Tests.antt =====
-- The theorems on src/metainfo.cpp at a torrent of two files, and at dictionaries that are none.
use uenclient.Common.{
  ◌<◌, ◌≡◌, refl, true, none, some, [], ◌∷◌, codes, pos, replicate, length, arith, same_bytes,
}
use uenclient.Bencode.Value.{dictionary, Entries, end, entry, contains, value}
use uenclient.Bencode.Parser.{info, int_limit}
use uenclient.Bencode.Encoding.{encode, encode_string}
use uenclient.MetaInfo.Variant.{Conversions, to_dictionary}
use uenclient.MetaInfo.Info.{MetaInfo, unknown, parse, total_size}
use uenclient.MetaInfo.Description.{Torrent, many}
use uenclient.MetaInfo.Incomplete.{parse-no_layout}

abbrev plain : Conversions
plain = record { from_utf8 = λ b. b; number_of = λ b. pos 0; text_of = λ z. [] }

abbrev new_info : MetaInfo
new_info = record {
  err_string = unknown;
  content = [];
  info_data = [];
  file_form = none;
  single_file = record {
    length_of = pos 0;
    md5sum = [];
    name = [];
    piece_length = pos 0;
    sha1_sums = [];
  };
  multi_files = [];
  announce = [];
  announce_list = [];
  creation_date = none;
  comment = [];
  created_by = [];
  name = [];
  piece_length = pos 0;
  sha1_sums = [];
}

abbrev album : Torrent
album = record {
  announce = codes "http://t/a";
  name = codes "album";
  piece_length = 32;
  hashes = replicate 20 7 ∷ replicate 20 9 ∷ [];
  layout = many (
      record { size = 40; first = codes "cd"; others = codes "1" ∷ [] }
      ∷ record { size = 5; first = codes "cover"; others = [] }
      ∷ []);
}

abbrev no_files : Entries
no_files = entry info (dictionary end) end

no_files-short : length (encode (dictionary no_files) []) < int_limit
unfolding encode encode_string
no_files-short = omega arith

parse-no_layout_example :
    (r : MetaInfo) × (parse plain (encode (dictionary no_files) []) new_info ≡ some (true, r))
    × (total_size r ≡ none)
unfolding contains value to_dictionary same_bytes
parse-no_layout_example =
    parse-no_layout plain no_files new_info (refl, tt, tt) no_files-short refl refl refl refl
