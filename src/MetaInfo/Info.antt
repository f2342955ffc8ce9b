-- ===== src/MetaInfo/Info.antt =====
-- `MetaInfo` of src/metainfo.cpp: its members, `clear` and `parse`, and the total size.
use uenclient.Common.{
  ℕ, zero, suc, Bool, true, false, Option, none, some, List, [], ◌∷◌, ◌++◌, Bytes, codes, ℤ, pos,
  ◌+ℤ◌, length, take, drop, is_empty, if◌then◌else◌,
}
use uenclient.Bencode.Value.{Value, Items, nil, cons, Entries, contains, value}
use uenclient.Bencode.Parser
use uenclient.Bencode.Parser.{
  Message, State, done, refused, fault, out_of_fuel, Outcome, info_section,
}
use uenclient.MetaInfo.Variant.{
  Text, Conversions, low_word, to_byte_array, to_long_long, to_int, to_list, to_dictionary,
}

pub data FileForm : Type 0 where
  single_file_form : FileForm
  multi_file_form : FileForm

pub record SingleFile : Type 0 where
  pub length_of : ℤ
  pub md5sum : Bytes
  pub name : Text
  pub piece_length : ℤ
  pub sha1_sums : List Bytes

pub record MultiFile : Type 0 where
  pub length_of : ℤ
  pub md5sum : Bytes
  pub path : Text

-- "Unknown error", or the parser's text.
pub data ErrorText : Type 0 where
  unknown : ErrorText
  of_parser : Option Message → ErrorText

-- The form is `none` as long as nothing has set it: the constructor leaves it uninitialised.
pub record MetaInfo : Type 0 where
  pub err_string : ErrorText
  pub content : Bytes
  pub info_data : Bytes
  pub file_form : Option FileForm
  pub single_file : SingleFile
  pub multi_files : List MultiFile
  pub announce : Text
  pub announce_list : List Text
  pub creation_date : Option ℕ
  pub comment : Text
  pub created_by : Text
  pub name : Text
  pub piece_length : ℤ
  pub sha1_sums : List Bytes

-- `clear`: the form and the single file are kept.
unfoldable pub clear : MetaInfo → MetaInfo
clear m = record m {
  err_string = unknown;
  content = [];
  info_data = [];
  multi_files = [];
  announce = [];
  announce_list = [];
  creation_date = none;
  comment = [];
  created_by = [];
  name = [];
  piece_length = pos 0;
  sha1_sums = [];
}

-- `for (i = 0; i < bytes.size(); i += size) … bytes.mid(i, size)`; a part for each byte suffices.
unfoldable pub parts : ℕ → ℕ → Bytes → List Bytes
parts size zero bytes = []
parts size (suc f) bytes = elim bytes [
  | [] ↦ []
  | c ∷ cs ↦ take size (c ∷ cs) ∷ parts size f (drop size (c ∷ cs))
]

unfoldable pub sums_of : Bytes → List Bytes
unfolding parts
sums_of pieces = parts 20 (length pieces) pieces

module _ (q : Conversions) where
  -- `foreach (QVariant p, pathElements)`.
  unfoldable pub add_elements : Bytes → Items → Bytes
  unfolding to_byte_array
  add_elements path nil = path
  add_elements path (cons p ps) =
      add_elements ((if is_empty path then path else path ++ codes "/") ++ to_byte_array q (some p))
        ps

  -- One entry of "files".
  unfoldable pub file_at : Value → MultiFile
  unfolding to_byte_array to_long_long to_list to_dictionary add_elements value
  file_at v =
      let file = to_dictionary (some v) in
      record {
        length_of = to_long_long q (value file (codes "length"));
        md5sum = to_byte_array q (value file (codes "md5sum"));
        path = q.from_utf8 (add_elements [] (to_list (value file (codes "path"))));
      }

  unfoldable pub add_files : List MultiFile → Items → List MultiFile
  unfolding file_at
  add_files fs nil = fs
  add_files fs (cons v vs) = add_files (fs ++ file_at v ∷ []) vs

  unfoldable pub read_multi : Entries → MetaInfo → MetaInfo
  unfolding to_byte_array to_int to_list add_files value sums_of
  read_multi info m = record m {
    file_form = some multi_file_form;
    multi_files = add_files m.multi_files (to_list (value info (codes "files")));
    name = q.from_utf8 (to_byte_array q (value info (codes "name")));
    piece_length = to_int q (value info (codes "piece length"));
    sha1_sums = m.sha1_sums ++ sums_of (to_byte_array q (value info (codes "pieces")));
  }

  unfoldable pub read_single : Entries → MetaInfo → MetaInfo
  unfolding to_byte_array to_int to_long_long value sums_of
  read_single info m = record m {
    file_form = some single_file_form;
    single_file = record {
      length_of = to_long_long q (value info (codes "length"));
      md5sum = to_byte_array q (value info (codes "md5sum"));
      name = q.from_utf8 (to_byte_array q (value info (codes "name")));
      piece_length = to_int q (value info (codes "piece length"));
      sha1_sums =
          m.single_file.sha1_sums ++ sums_of (to_byte_array q (value info (codes "pieces")));
    };
  }

  -- `if (info.contains("files")) … else if (info.contains("length")) …`.
  unfoldable pub read_info : Entries → MetaInfo → MetaInfo
  unfolding read_multi read_single contains
  read_info info m =
      if contains info (codes "files")
      then read_multi info m
      else if contains info (codes "length")
      then read_single info m
      else m

  -- What stands beside the info section.
  unfoldable pub read_rest : Entries → MetaInfo → MetaInfo
  unfolding to_byte_array to_int low_word value contains
  read_rest dict m = record m {
    announce = q.from_utf8 (to_byte_array q (value dict (codes "announce")));
    creation_date =
        if contains dict (codes "creation date")
        then some (low_word (to_int q (value dict (codes "creation date"))))
        else m.creation_date;
    comment =
        if contains dict (codes "comment")
        then q.from_utf8 (to_byte_array q (value dict (codes "comment")))
        else m.comment;
    created_by =
        if contains dict (codes "created by")
        then q.from_utf8 (to_byte_array q (value dict (codes "created by")))
        else m.created_by;
  }

  -- What `parse` does with the parser's dictionary.
  unfoldable pub read_dictionary : Entries → MetaInfo → Bool × MetaInfo
  unfolding read_info read_rest value contains to_dictionary
  read_dictionary dict m =
      if contains dict (codes "info")
      then (true, read_rest dict (read_info (to_dictionary (value dict (codes "info"))) m))
      else (false, m)

  -- What `parse` does with the parser's result; there is none where the parser has none.
  unfoldable pub take_parsed : Bytes → MetaInfo → Outcome Entries → Option (Bool × MetaInfo)
  unfolding read_dictionary info_section
  take_parsed bytes m (done dict s) =
      some (read_dictionary dict (record m { info_data = info_section bytes s }))
  take_parsed bytes m (refused s) = some (false, record m { err_string = of_parser s.err_string })
  take_parsed bytes m fault = none
  take_parsed bytes m out_of_fuel = none

  -- `parse`.
  unfoldable pub parse : Bytes → MetaInfo → Option (Bool × MetaInfo)
  unfolding clear take_parsed
  parse bytes m = take_parsed bytes (record (clear m) { content = bytes }) (Parser.parse bytes)

-- The lengths of the files together.
unfoldable pub sum_lengths : ℤ → List MultiFile → ℤ
sum_lengths size [] = size
sum_lengths size (f ∷ fs) = sum_lengths (size +ℤ f.length_of) fs

-- `totalSize`; a form that was never set has none.
unfoldable pub total_size : MetaInfo → Option ℤ
unfolding sum_lengths
total_size m = elim m.file_form [
  | none ↦ none
  | some single_file_form ↦ some m.single_file.length_of
  | some multi_file_form ↦ some (sum_lengths (pos 0) m.multi_files)
]
