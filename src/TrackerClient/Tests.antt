-- ===== src/TrackerClient/Tests.antt =====
-- The theorems on src/trackerclient.cpp at a tracker with three peers.
use uenclient.Common.{
  ◌*◌, ◌-◌, ◌^◌, ◌≤◌, ◌<◌, ◌≡◌, refl, true, false, none, some, [], ◌∷◌, map, codes, pos, length,
  arith,
}
use uenclient.Bencode.Value.{dictionary}
use uenclient.Bencode.Parser.{int_limit}
use uenclient.Bencode.Encoding.{encode, signed_decimal, encode_string}
use uenclient.MetaInfo.Info.{MetaInfo, unknown}
use uenclient.TrackerClient.State.{
  Tools, Download, completed, started, Tracker, new_tracker, peer_list_updated,
}
use uenclient.TrackerClient.Query.{encoded_sum, fetch_peer_list, left_of}
use uenclient.TrackerClient.Left.{left_of_lem}
use uenclient.TrackerClient.InfoHash.{percent_decoded, percent_decoded-encoded_sum}
use uenclient.TrackerClient.Compact.{peer_at}
use uenclient.TrackerClient.Reply.{http_request_done}
use uenclient.TrackerClient.Replies.{Announcement, reply_entries, http_request_done-announcement}
use uenclient.TrackerClient.Events.{
  events, fetch, here, next, Announced, Reaches-new_tracker, fetch_peer_list-completed,
}

abbrev tools : Tools
tools = record {
  conversions = record { from_utf8 = λ b. b; number_of = λ b. pos 0; text_of = λ z. codes "0" };
  to_latin1 = λ b. b;
  url_of = λ b. record {
    path = codes "/a";
    host = codes "t";
    port = none;
    user_name = [];
    password = [];
  };
  address_of = λ b. 0;
  uninitialised = pos 0;
}

abbrev seeded : Download
seeded = record {
  info_hash = 0 ∷ 171 ∷ 255 ∷ [];
  is_seeding = true;
  uploaded_bytes = pos 0;
  downloaded_bytes = pos 0;
  client_id = codes "-QT0407-1300000000--";
  server_port = 6881;
}

abbrev meta : MetaInfo
meta = record {
  err_string = unknown;
  content = [];
  info_data = [];
  file_form = none;
  single_file = record {
    length_of = pos 0;
    md5sum = [];
    name = [];
    piece_length = pos 0;
    sha1_sums = [];
  };
  multi_files = [];
  announce = codes "http://t/a";
  announce_list = [];
  creation_date = none;
  comment = [];
  created_by = [];
  name = [];
  piece_length = pos 0;
  sha1_sums = [];
}

abbrev fresh : Tracker
fresh = new_tracker meta

percent_decoded-encoded_sum_example :
    percent_decoded (encoded_sum (0 ∷ 171 ∷ 255 ∷ [])) ≡ some (0 ∷ 171 ∷ 255 ∷ [])
percent_decoded-encoded_sum_example =
    percent_decoded-encoded_sum (0 ∷ 171 ∷ 255 ∷ []) (omega arith, (omega arith, (omega arith, tt)))

left_of_lem_example :
    (100 - 30 < 2 ^ 31 → left_of (pos 100) (pos 30) ≡ pos (100 - 30))
    × (2 ^ 31 ≤ 100 - 30 → 100 - 30 < 2 ^ 32 → left_of (pos 100) (pos 30) ≡ pos 0)
left_of_lem_example = left_of_lem 100 30 (omega arith)

abbrev three_peers : Announcement
three_peers = record {
  seconds = 1800;
  tracker = codes "x";
  endpoints = (3232235777, 6881) ∷ (1, 65535) ∷ (4294967295, 0) ∷ [];
}

three_peers-short : length (encode (dictionary (reply_entries three_peers)) []) < int_limit
unfolding encode signed_decimal encode_string
three_peers-short = omega arith

http_request_done-announcement_example :
    http_request_done tools false (encode (dictionary (reply_entries three_peers)) []) fresh
    ≡ some (record fresh {
      request_timer = some (pos (1800 * 1000));
      tracker_id = codes "x";
      peers = map peer_at three_peers.endpoints;
      signals = peer_list_updated (map peer_at three_peers.endpoints) ∷ [];
    })
http_request_done-announcement_example =
    http_request_done-announcement tools fresh refl three_peers
      ((omega arith, omega arith), ((omega arith, omega arith), ((omega arith, omega arith), tt)))
      (omega arith) three_peers-short

Reaches-new_tracker_example :
    Announced tools (fetch_peer_list tools seeded (fetch_peer_list tools seeded fresh))
Reaches-new_tracker_example =
    Reaches-new_tracker tools meta (next (next here (fetch seeded)) (fetch seeded))

fetch_peer_list-completed_example :
    events (fetch_peer_list tools seeded (fetch_peer_list tools seeded fresh))
    ≡ some completed ∷ some started ∷ []
fetch_peer_list-completed_example = fetch_peer_list-completed tools seeded fresh refl refl refl
