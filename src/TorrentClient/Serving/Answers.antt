-- ===== src/TorrentClient/Serving/Answers.antt =====
-- A peer's request for a block, from `peerRequestsBlock` to `sendToPeer` of src/torrentclient.cpp.
use uenclient.Common.{ℕ, ◌∷◌, Bytes, if◌then◌else◌}
use uenclient.PeerWire.Client.{Client, Slots}
use uenclient.PeerWire.Messages.{send_block}
use uenclient.TorrentClient.State.{Connection, Torrent}
use uenclient.TorrentClient.Serving.{remove_read}

module _ (emit : Slots) (n request piece begin : ℕ) (bytes : Bytes) (t : Torrent)
    (k : Connection) where
  -- A request that is taken.
  abbrev accepted : Torrent
  accepted = record t { read_ids = (request, n) ∷ remove_read request t.read_ids }

  abbrev send : Client → Client
  send c = if c.choking_peer then c else send_block emit piece begin bytes c
