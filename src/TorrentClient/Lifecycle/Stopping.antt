-- ===== src/TorrentClient/Lifecycle/Stopping.antt =====
-- A torrent of src/torrentclient.cpp that has been stopped.
use uenclient.Common.{ℕ, List}
use uenclient.Common.Sets
use uenclient.PeerWire.Client.{Slots}
use uenclient.TrackerClient.State.{TrackerPeer}
use uenclient.TorrentClient.State.{Torrent}
use uenclient.TorrentClient.PeerList.{Host}
use uenclient.TorrentClient.PeerList.Connecting.{Links, connect_to_peers, add_to_peer_list}
use uenclient.TorrentClient.Schedule.{schedule_downloads}
use uenclient.TorrentClient.Lifecycle.{Session, start, stop, on_tracker_stopped}

abbrev with_torrent : (Torrent → Torrent) → Session → Session
with_torrent f s =
    let l : Links = s.links in record s { links = record l { torrent = f l.torrent } }

abbrev with_links : (Links → Links) → Session → Session
with_links f s = record s { links = f s.links }

module _ (emit : Slots) (qrand : ℕ → ℕ) (piece_length_at : ℕ → ℕ) (h : Host) where
  -- What the user, the tracker and the event loop still call: another start or stop, the tracker's
  -- answer and its list of peers, the scheduler and the peer connector.
  pub data Step (s : Session) : Session → Type 0 where
    started : Step s (start s)
    stopped : Step s (stop s)
    tracker_left : Step s (on_tracker_stopped s)
    peers_found : (found : List TrackerPeer) → Step s (with_links (add_to_peer_list h found) s)
    scheduled : Step s (with_torrent (schedule_downloads emit qrand piece_length_at) s)
    connected : Step s (with_links (connect_to_peers h) s)

  pub data Reaches (s : Session) : Session → Type 0 where
    here : Reaches s s
    next : {t u : Session} → Reaches s t → Step t u → Reaches s u
