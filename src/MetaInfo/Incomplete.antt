-- ===== src/MetaInfo/Incomplete.antt =====
-- `MetaInfo::parse` of src/metainfo.cpp on dictionaries that are no torrent file.
use uenclient.Common.{◌<◌, ◌≡◌, refl, ap, ◌∙◌, true, false, none, some, [], Bytes, codes, length}
use uenclient.Bencode.Value.{dictionary, Entries, contains, value}
use uenclient.Bencode.Parser.{int_limit, info_section}
use uenclient.Bencode.Encoding.{encode, IsRepresentable}
use uenclient.Bencode.Encoding.RoundTrip.{parse-encode}
use uenclient.MetaInfo.Variant.{Conversions, to_dictionary}
use uenclient.MetaInfo.Info.{
  MetaInfo, unknown, clear, read_info, read_rest, read_dictionary, take_parsed, parse, total_size,
}

module _ (q : Conversions) (dict : Entries) (m : MetaInfo) where
  abbrev content : Bytes
  content = encode (dictionary dict) []

  abbrev begun : Bytes → MetaInfo
  begun section = record (clear m) { content = content; info_data = section }

  parse-read_dictionary :
      IsRepresentable (dictionary dict)
      → length (encode (dictionary dict) []) < int_limit
      → (s : Bytes) × (parse q content m ≡ some (read_dictionary q dict (begun s)))
  unfolding parse
  parse-read_dictionary rep limit =
      let (t, returned, position, ended, clean) = parse-encode dict rep limit in
      (
        info_section content t,
        ap (take_parsed q content (record (clear m) { content = content })) returned,
      )

  -- A bencoded dictionary without the key "info" is refused, with the text "Unknown error" and no
  -- form set.
  pub parse-no_info :
      IsRepresentable (dictionary dict)
      → length (encode (dictionary dict) []) < int_limit
      → contains dict (codes "info") ≡ false
      → (r : MetaInfo) × (parse q (encode (dictionary dict) []) m ≡ some (false, r))
        × (r.err_string ≡ unknown)
        × (r.file_form ≡ m.file_form)
  unfolding read_dictionary clear
  parse-no_info rep limit h =
      let (s, e) = parse-read_dictionary rep limit in (begun s, e ∙ rw h, refl, refl)

  -- A torrent file that has an info section with neither "files" nor "length" is accepted by a new
  -- object, and its form is never set.
  pub parse-no_layout :
      IsRepresentable (dictionary dict)
      → length (encode (dictionary dict) []) < int_limit
      → contains dict (codes "info") ≡ true
      → contains (to_dictionary (value dict (codes "info"))) (codes "files") ≡ false
      → contains (to_dictionary (value dict (codes "info"))) (codes "length") ≡ false
      → m.file_form ≡ none
      → (r : MetaInfo) × (parse q (encode (dictionary dict) []) m ≡ some (true, r))
        × (total_size r ≡ none)
  unfolding read_dictionary read_info read_rest clear total_size
  parse-no_layout rep limit h no_files no_length fresh =
      let (s, e) = parse-read_dictionary rep limit in
      (read_rest q dict (begun s), e ∙ rw (h, no_files, no_length), rw fresh)
