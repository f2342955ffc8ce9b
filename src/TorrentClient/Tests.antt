-- ===== src/TorrentClient/Tests.antt =====
-- The theorems on src/torrentclient.cpp at a torrent of three pieces with one peer.
use uenclient.Common.{
  ℕ, ◌+◌, ◌*◌, ◌≤◌, ◌≡◌, refl, true, false, none, some, List, [], ◌∷◌, ◌++◌, Bytes, length, get_or,
  get_elem?, replicate, codes, All, arith,
}
use uenclient.PeerWire.Client.{TorrentBlock, Client, Slots, new_client}
use uenclient.FileManager.Requests.{Manager}
use uenclient.TorrentClient.State.{downloading, endgame, TorrentPiece, Peer, Connection, Torrent}
use uenclient.TorrentClient.Blocks.{request_blocks}
use uenclient.TorrentClient.Blocks.Requests.{IsWanted, request_blocks-IsWanted}
use uenclient.TorrentClient.Receiving.{piece_verified, peer_choked}
use uenclient.TorrentClient.Schedule.{new_piece, schedule_downloads}
use uenclient.TorrentClient.Invariant.{IsConsistent}
use uenclient.TorrentClient.Invariant.Reachable.{Step, Reaches, Reaches-IsConsistent}
use uenclient.TorrentClient.Progress.{piece_verified-interesting}
use uenclient.TrackerClient.State.{TrackerPeer}
use uenclient.TorrentClient.PeerList.{Host, add_peers, merge_peers}
use uenclient.TorrentClient.PeerList.Bounded.{HasDistinctPeers, IsTaken, merge_peers_lem}
use uenclient.TorrentClient.Lifecycle.{Session}
use uenclient.TorrentClient.Lifecycle.Stopping.{here}

abbrev quiet : Slots
quiet g c = c

abbrev counting : ℕ → ℕ
counting n = 7 * n + 3

abbrev lengths : ℕ → ℕ
lengths i = 20000

-- A client that has every piece and lets itself be asked.
abbrev client : Client
client = record (new_client (codes "-UE0000-123456789012")) {
  choked_by_peer = false;
  peer_pieces = replicate 3 true;
}

abbrev piece : TorrentPiece
piece = new_piece 1 20000

abbrev seeder : Peer
seeder = record {
  address = 1;
  port = 6881;
  interesting = true;
  seed = false;
  last_visited = 0;
  connect_start = 0;
  connect_time = 0;
  pieces = false ∷ true ∷ false ∷ [];
  num_completed_pieces = 1;
}

abbrev torrent : Torrent
torrent = record {
  state = downloading;
  connections =
      record { number = 4; connected = true; peer_address = 1; peer_port = 6881; client = client }
      ∷ [];
  peers = seeder ∷ [];
  read_ids = [];
  pending_pieces = piece ∷ [];
  payloads = (4, 1) ∷ [];
  completed_pieces = true ∷ false ∷ false ∷ [];
  incomplete_pieces = false ∷ true ∷ true ∷ [];
  piece_count = 3;
  scheduler_called = false;
  seeding_announced = false;
  connector_called = false;
  last_progress = none;
  draws = 0;
  orders = [];
}

torrent-IsConsistent : IsConsistent torrent
torrent-IsConsistent = record { live = (refl, tt); whole = ((refl, refl), tt); complement = refl }

request_blocks-IsWanted_example :
    let r = request_blocks quiet counting endgame 0 5 piece client in
    (bs : List TorrentBlock) × (r.client.incoming ≡ client.incoming ++ bs)
    × All (IsWanted endgame piece) bs
    × (length bs ≡ r.result)
    × (r.result ≤ 5)
request_blocks-IsWanted_example =
    request_blocks-IsWanted quiet (λ c. refl) counting endgame 0 5 piece client (refl, refl)

Reaches-IsConsistent_example :
    IsConsistent (schedule_downloads quiet counting lengths (peer_choked 4 torrent))
Reaches-IsConsistent_example =
    Reaches-IsConsistent quiet counting lengths torrent
      (schedule_downloads quiet counting lengths (peer_choked 4 torrent))
      (Reaches.after _ _ (Reaches.after _ _ Reaches.here (Step.choked 4)) Step.scheduled)
      torrent-IsConsistent

piece_verified-interesting_example :
    (u : Torrent) × (piece_verified quiet 1 true torrent ≡ some u)
    × (get_or u.incomplete_pieces 1 false ≡ false)
    × ((q : Peer) × (get_elem? u.peers 0 ≡ some q) × (q.interesting ≡ true))
piece_verified-interesting_example =
    piece_verified-interesting quiet 1 0 seeder torrent (omega arith) refl refl refl refl

-- A file of two pieces, both of them full.
abbrev manager : Manager Bytes
manager = record {
  files = [];
  piece_length = 20000;
  total_length = 40000;
  sha1s = [] ∷ [] ∷ [];
  new_file = true;
  read_id = 0;
  read_requests = [];
  write_requests = [];
  pending_verifications = [];
  start_verification = false;
  woke_up = false;
  verified_pieces = [];
  signals = [];
}

abbrev found_peers : List TrackerPeer
found_peers =
    record { id = []; address = 1; port = 6881 } ∷ record { id = []; address = 2; port = 6882 } ∷ []

abbrev host : Host
host = record {
  addresses = 9 ∷ [];
  server_port = 6881;
  is_outgoing = λ n. true;
  now = 100;
  qrand = counting;
  client_id = codes "-UE0000-123456789012";
}

merge_peers_lem_example :
    HasDistinctPeers (merge_peers host found_peers torrent).peers
    × (length (merge_peers host found_peers torrent).peers ≤ 750)
    × (length (add_peers host 3 found_peers torrent.peers) ≤ 750
        → All (IsTaken host (merge_peers host found_peers torrent).peers) found_peers)
merge_peers_lem_example = merge_peers_lem host found_peers torrent (tt, tt)

abbrev session : Session
session = record {
  links = record {
    torrent = torrent;
    manager = record { connections = 4 ∷ []; id = [] };
    sockets = 4 ∷ [];
    next_number = 5;
  };
  registered = 1;
  transfer_timer = true;
  upload_timer = true;
  verifying = true;
  tracker_started = true;
  tracker_stopped = false;
  stopped_signals = 0;
  errors = [];
}

abbrev open_client : Connection
open_client = record {
  number = 4;
  connected = true;
  peer_address = 1;
  peer_port = 6881;
  client = record client { choking_peer = false };
}

abbrev asked_torrent : Torrent
asked_torrent = record torrent { connections = open_client ∷ [] }
