-- ===== src/TrackerClient/Replies.antt =====
-- `httpRequestDone` of src/trackerclient.cpp on whole replies, from their bytes to the members.
use uenclient.Common.{
  ℕ, ◌*◌, ◌^◌, ◌<◌, ◌≡◌, refl, ap, ◌∙◌, true, false, Option, some, List, [], ◌∷◌, ◌++◌, map, Bytes,
  codes, ℤ, pos, All, length, arith, same_bytes, lt→ltb,
}
use uenclient.PeerWire.Words.{bind}
use uenclient.Bencode.Value.{integer, byte_string, dictionary, Entries, end, entry, contains, value}
use uenclient.Bencode.Parser.{int_limit}
use uenclient.Bencode.Encoding.{encode, IsRepresentable}
use uenclient.Bencode.Encoding.RoundTrip.{parse-encode}
use uenclient.MetaInfo.Variant.{to_int-integer}
use uenclient.TrackerClient.State.{Tools, TrackerPeer, failure, peer_list_updated, Tracker}
use uenclient.TrackerClient.Reply.{
  milliseconds, take_peers, take_interval, take_dictionary, http_request_done,
}
use uenclient.TrackerClient.Compact.{compact_of, IsEndpoint, peer_at, compact_peers-compact_of}

-- What a tracker replies: the seconds until the next request, its id and the peers.
pub record Announcement : Type 0 where
  pub seconds : ℕ
  pub tracker : Bytes
  pub endpoints : List (ℕ × ℕ)

abbrev pub reply_entries : Announcement → Entries
reply_entries a = entry (codes "interval") (integer (pos a.seconds)) (
    entry (codes "peers") (byte_string (compact_of a.endpoints))
      (entry (codes "tracker id") (byte_string a.tracker) end))

module _ (tools : Tools) (t : Tracker) (going_on : t.last_tracker_request ≡ false) where
  http_request_done-encode :
      (m : Entries)
      → IsRepresentable (dictionary m)
      → length (encode (dictionary m) []) < int_limit
      → http_request_done tools false (encode (dictionary m) []) t ≡ take_dictionary tools m t
  unfolding http_request_done
  http_request_done-encode m rep limit =
      let (s, returned, position, ended, clean) = parse-encode m rep limit in
      rw (going_on, returned)

  reply-IsRepresentable :
      (a : Announcement)
      → a.seconds * 1000 < 2 ^ 31
      → IsRepresentable (dictionary (reply_entries a))
  unfolding contains same_bytes
  reply-IsRepresentable a h = (refl, omega arith, (refl, tt, (refl, tt, tt)))

  -- A tracker's reply in compact form sets the interval of the request timer, the tracker's id and
  -- the peers, every address and port as it was sent, and hands them to the torrent client.
  pub http_request_done-announcement :
      (a : Announcement)
      → All IsEndpoint a.endpoints
      → a.seconds * 1000 < 2 ^ 31
      → length (encode (dictionary (reply_entries a)) []) < int_limit
      → http_request_done tools false (encode (dictionary (reply_entries a)) []) t
        ≡ some (record t {
          request_timer = some (pos (a.seconds * 1000));
          tracker_id = a.tracker;
          peers = map peer_at a.endpoints;
          signals = t.signals ++ peer_list_updated (map peer_at a.endpoints) ∷ [];
        })
  unfolding take_dictionary take_interval take_peers milliseconds same_bytes
  http_request_done-announcement a whole fits limit =
      http_request_done-encode (reply_entries a) (reply-IsRepresentable a fits) limit
      ∙ ap
          (λ (z : ℤ).
            bind
              (bind (milliseconds z)
                (λ ms. some (record t { request_timer = some ms; tracker_id = a.tracker })))
              (take_peers tools (reply_entries a)))
          (to_int-integer tools.conversions a.seconds (omega arith))
      ∙ rw (lt→ltb _ _ fits) (
          ap
            (λ (o : Option (List TrackerPeer)). bind o (λ ps. some (record t {
              request_timer = some (pos (a.seconds * 1000));
              tracker_id = a.tracker;
              peers = ps;
              signals = t.signals ++ peer_list_updated ps ∷ [];
            })))
            (compact_peers-compact_of [] a.endpoints whole))

  -- A reply with the key "failure reason" only reports the failure, whatever else it holds.
  pub http_request_done-failure :
      (m : Entries) (reason : Bytes)
      → IsRepresentable (dictionary m)
      → length (encode (dictionary m) []) < int_limit
      → contains m (codes "failure reason") ≡ true
      → value m (codes "failure reason") ≡ some (byte_string reason)
      → http_request_done tools false (encode (dictionary m) []) t
        ≡ some
            (record t { signals = t.signals ++ failure (tools.conversions.from_utf8 reason) ∷ [] })
  unfolding take_dictionary
  http_request_done-failure m reason rep limit h e =
      http_request_done-encode m rep limit ∙ rw (h, e)
