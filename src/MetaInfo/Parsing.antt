-- ===== src/MetaInfo/Parsing.antt =====
-- `MetaInfo::parse` of src/metainfo.cpp on a torrent file as the format has it.
use uenclient.Common.{◌≡◌, some, [], ◌++◌, map, Bytes, pos, length}
use uenclient.Bencode.Value.{dictionary}
use uenclient.Bencode.Encoding.{encode}
use uenclient.MetaInfo.Variant.{Conversions}
use uenclient.MetaInfo.Info.{MetaInfo, MultiFile, single_file_form, multi_file_form, clear}
use uenclient.MetaInfo.Description.{
  FileEntry, Layout, one, many, Torrent, slashed, info_value, torrent_entries,
}

abbrev HasHashSize : Bytes → Type 0
HasHashSize h = length h ≡ 20

module _ (q : Conversions) where
  -- The path of a file that has one, as the program has it.
  abbrev pub described_file : FileEntry → MultiFile
  described_file f = record {
    length_of = pos f.size;
    md5sum = [];
    path = q.from_utf8 (f.first ++ slashed f.others);
  }

  -- The members when the content has been parsed.
  abbrev started : Torrent → MetaInfo → MetaInfo
  started d m = record (clear m) {
    content = encode (dictionary (torrent_entries d)) [];
    info_data = encode (info_value d) [];
  }

  -- What the info section sets.
  abbrev described_layout : Layout → Torrent → MetaInfo → MetaInfo
  described_layout (one n) d m = record m {
    file_form = some single_file_form;
    single_file = record {
      length_of = pos n;
      md5sum = [];
      name = q.from_utf8 d.name;
      piece_length = pos d.piece_length;
      sha1_sums = m.single_file.sha1_sums ++ d.hashes;
    };
  }
  described_layout (many fs) d m = record m {
    file_form = some multi_file_form;
    multi_files = map described_file fs;
    name = q.from_utf8 d.name;
    piece_length = pos d.piece_length;
    sha1_sums = d.hashes;
  }

  -- What the members hold of a torrent file.
  abbrev pub described : Torrent → MetaInfo → MetaInfo
  described d m = record (described_layout d.layout d (started d m)) {
    announce = q.from_utf8 d.announce;
  }
