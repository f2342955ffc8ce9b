-- ===== src/MetaInfo/Description.antt =====
-- What a torrent file says, written down independently of src/metainfo.cpp: the contents, and the
-- bencoded dictionary that the format has for them.
use uenclient.Common.{ℕ, ◌^◌, ◌<◌, ◌≡◌, List, [], ◌∷◌, ◌++◌, Bytes, codes, pos, length, All}
use uenclient.Bencode.Value.{
  Value, integer, byte_string, list, dictionary, Items, nil, cons, Entries, end, entry,
}
use uenclient.Bencode.Value.Building.{join}
use uenclient.Bencode.Parser.{info, int64_limit}

-- A file's length, and the names of its directories and its own, the first apart.
pub record FileEntry : Type 0 where
  pub size : ℕ
  pub first : Bytes
  pub others : List Bytes

pub data Layout : Type 0 where
  one : ℕ → Layout
  many : List FileEntry → Layout

pub record Torrent : Type 0 where
  pub announce : Bytes
  pub name : Bytes
  pub piece_length : ℕ
  pub hashes : List Bytes
  pub layout : Layout

abbrev pub concat : List Bytes → Bytes
concat [] = []
concat (b ∷ bs) = b ++ concat bs

-- The names behind the first, each behind a slash.
abbrev pub slashed : List Bytes → Bytes
slashed [] = []
slashed (b ∷ bs) = b'/' ∷ (b ++ slashed bs)

abbrev pub names_of : List Bytes → Items
names_of [] = nil
names_of (b ∷ bs) = cons (byte_string b) (names_of bs)

abbrev pub file_value : FileEntry → Value
file_value f = dictionary (
    entry (codes "length") (integer (pos f.size))
      (entry (codes "path") (list (cons (byte_string f.first) (names_of f.others))) end))

abbrev pub files_of : List FileEntry → Items
files_of [] = nil
files_of (f ∷ fs) = cons (file_value f) (files_of fs)

-- The entries that both forms have.
abbrev pub common_entries : Torrent → Entries
common_entries d = entry (codes "name") (byte_string d.name) (
    entry (codes "piece length") (integer (pos d.piece_length))
      (entry (codes "pieces") (byte_string (concat d.hashes)) end))

abbrev pub layout_entry : Layout → Entries → Entries
layout_entry (one n) m = entry (codes "length") (integer (pos n)) m
layout_entry (many fs) m = entry (codes "files") (list (files_of fs)) m

abbrev pub info_value : Torrent → Value
info_value d = dictionary (layout_entry d.layout (common_entries d))

abbrev pub front : Torrent → Entries
front d = entry (codes "announce") (byte_string d.announce) end

abbrev pub torrent_entries : Torrent → Entries
torrent_entries d = join (front d) (entry info (info_value d) end)

abbrev pub IsFile : FileEntry → Type 0
IsFile f = (f.size < int64_limit) × (0 < length f.first)

abbrev pub FitsLayout : Layout → Type 0
FitsLayout (one n) = n < int64_limit
FitsLayout (many fs) = All IsFile fs

-- What the program's types can hold: lengths of files in 63 bits, the pieces' in 31, hashes of 20
-- bytes, and no file without a name.
pub record IsValid (d : Torrent) : Type 0 where
  pub piece_fits : d.piece_length < 2 ^ 31
  pub layout_fits : FitsLayout d.layout
  pub hashes_fit : All (λ (h : Bytes). length h ≡ 20) d.hashes
