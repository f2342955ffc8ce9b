-- ===== src/TrackerClient/Reply.antt =====
-- How src/trackerclient.cpp takes the tracker's reply: `httpRequestDone`.
use uenclient.Common.{
  ℕ, suc, ◌+◌, ◌*◌, ◌%◌, ◌^◌, Bool, Option, none, some, List, [], ◌∷◌, ◌++◌, Bytes, codes, ℤ, pos,
  negsuc, ltb, leb, if◌then◌else◌,
}
use uenclient.PeerWire.Words.{bind, from_network_data}
use uenclient.Bencode.Value.{Value, list, Items, nil, cons, Entries, contains, value}
use uenclient.Bencode.Parser
use uenclient.Bencode.Parser.{Outcome, done, refused, fault, out_of_fuel}
use uenclient.MetaInfo.Variant.{low_word, to_byte_array, to_int, to_dictionary}
use uenclient.TrackerClient.State.{
  Tools, TrackerPeer, Signal, connection_error, failure, warning, peer_list_updated,
  tracker_stopped, Tracker,
}

abbrev pub emit : Signal → Tracker → Tracker
emit g t = record t { signals = t.signals ++ g ∷ [] }

-- One turn of the loop over the compact list: it reads six bytes; behind the last byte there is a
-- zero, and then nothing to read.
unfoldable pub compact_peer : ℕ → ℕ → ℕ → ℕ → ℕ → ℕ → TrackerPeer
unfolding from_network_data
compact_peer b0 b1 b2 b3 b4 b5 = record {
  id = [];
  address = from_network_data b0 b1 b2 b3;
  port = b4 * 2 ^ 8 + b5;
}

-- `for (i = 0; i < peerTmp.size(); i += 6)`.
unfoldable pub compact_peers : List TrackerPeer → Bytes → Option (List TrackerPeer)
unfolding compact_peer
compact_peers ps [] = some ps
compact_peers ps (b0 ∷ b1 ∷ b2 ∷ b3 ∷ b4 ∷ b5 ∷ rest) =
    compact_peers (ps ++ compact_peer b0 b1 b2 b3 b4 b5 ∷ []) rest
compact_peers ps (b0 ∷ b1 ∷ b2 ∷ b3 ∷ b4 ∷ []) = some (ps ++ compact_peer b0 b1 b2 b3 b4 0 ∷ [])
compact_peers ps _ = none

-- `startTimer(interval * 1000)`; a product that is no `int` is undefined.
unfoldable pub milliseconds : ℤ → Option ℤ
milliseconds (pos n) = if ltb (n * 1000) (2 ^ 31) then some (pos (n * 1000)) else none
milliseconds (negsuc n) =
    if leb (suc n * 1000) (2 ^ 31) then some (negsuc (n * 1000 + 999)) else none

module _ (tools : Tools) where
  -- A peer that the tracker describes by a dictionary.
  unfoldable pub described_peer : Value → TrackerPeer
  unfolding to_byte_array to_int low_word to_dictionary value
  described_peer v =
      let q = tools.conversions in
      let peer = to_dictionary (some v) in
      record {
        id = q.from_utf8 (to_byte_array q (value peer (codes "peer id")));
        address = tools.address_of (q.from_utf8 (to_byte_array q (value peer (codes "ip"))));
        port = low_word (to_int q (value peer (codes "port"))) % 2 ^ 16;
      }

  unfoldable pub described_peers : List TrackerPeer → Items → List TrackerPeer
  unfolding described_peer
  described_peers ps nil = ps
  described_peers ps (cons v vs) = described_peers (ps ++ described_peer v ∷ []) vs

  -- The two forms of "peers".
  unfoldable pub peers_of : Option Value → Option (List TrackerPeer)
  unfolding described_peers compact_peers to_byte_array
  peers_of (some (list xs)) = some (described_peers [] xs)
  peers_of v = compact_peers [] (to_byte_array tools.conversions v)

  unfoldable pub take_warning : Entries → Tracker → Tracker
  unfolding contains value to_byte_array
  take_warning m t =
      let q = tools.conversions in
      if contains m (codes "warning message")
      then emit (warning (q.from_utf8 (to_byte_array q (value m (codes "warning message"))))) t
      else t

  unfoldable pub take_id : Entries → Tracker → Tracker
  unfolding contains value to_byte_array
  take_id m t =
      if contains m (codes "tracker id")
      then record t { tracker_id = to_byte_array tools.conversions (value m (codes "tracker id")) }
      else t

  unfoldable pub take_interval : Entries → Tracker → Option Tracker
  unfolding contains value to_int milliseconds
  take_interval m t =
      if contains m (codes "interval")
      then bind (milliseconds (to_int tools.conversions (value m (codes "interval"))))
          (λ ms. some (record t { request_timer = some ms }))
      else some t

  unfoldable pub take_peers : Entries → Tracker → Option Tracker
  unfolding contains value peers_of
  take_peers m t =
      if contains m (codes "peers")
      then bind (peers_of (value m (codes "peers")))
          (λ ps. some (emit (peer_list_updated ps) (record t { peers = ps })))
      else some t

  -- A reply that the parser has read.
  unfoldable pub take_dictionary : Entries → Tracker → Option Tracker
  unfolding take_warning take_id take_interval take_peers contains value to_byte_array
  take_dictionary m t =
      let q = tools.conversions in
      if contains m (codes "failure reason")
      then some
          (emit (failure (q.from_utf8 (to_byte_array q (value m (codes "failure reason"))))) t)
      else bind (take_interval m (take_id m (take_warning m t))) (take_peers m)

  unfoldable pub take_outcome : Tracker → Outcome Entries → Option Tracker
  unfolding take_dictionary
  take_outcome t (done m s) = take_dictionary m t
  take_outcome t (refused s) = some t
  take_outcome t fault = none
  take_outcome t out_of_fuel = none

  -- `httpRequestDone`, with what `readAll` gives; `none` is undefined behaviour.
  unfoldable pub http_request_done : Bool → Bytes → Tracker → Option Tracker
  unfolding take_outcome
  http_request_done error response t =
      if t.last_tracker_request
      then some (emit tracker_stopped t)
      else if error
      then some (emit connection_error t)
      else take_outcome t (Parser.parse response)
