-- ===== src/TorrentClient/PeerList.antt =====
-- The peers that a torrent knows and connects to: `addToPeerList`, `weighedFreePeers` and
-- `connectToPeers` of src/torrentclient.cpp.
pub mod Connecting
pub mod Bounded
use uenclient.Common.{
  ℕ, zero, suc, ◌+◌, ◌-◌, ◌*◌, ◌/◌, ◌%◌, ◌^◌, Bool, true, false, not, ◌&&◌, ◌||◌, Option, none,
  some, List, [], ◌∷◌, ◌++◌, Bytes, ℤ, pos, negsuc, ◌+ℤ◌, ◌-ℤ◌, length, drop, get_elem?, replicate,
  ltb, ◌==◌, if◌then◌else◌,
}
use uenclient.Common.Sets
use uenclient.PeerWire.Client.{new_client}
use uenclient.PeerWire.Transfer.{download_speed, upload_speed}
use uenclient.TorrentClient.State.{
  Phase, idle, paused, stopping, searching, connecting, warming_up, is_seeding, Peer, Connection,
  Torrent,
}
use uenclient.TrackerClient.State.{TrackerPeer}
use uenclient.ConnectionManager.{Manager, can_add_connection, add_connection, max_connections}

abbrev pub is_at : ℕ → ℕ → Peer → Bool
is_at address port p = p.port == port && p.address == address

unfoldable pub is_known : ℕ → ℕ → List Peer → Bool
is_known address port [] = false
is_known address port (p ∷ ps) = is_at address port p || is_known address port ps

-- `*newPeer = peer`, and the members that follow.
unfoldable pub new_peer : ℕ → TrackerPeer → Peer
new_peer piece_count p = record {
  address = p.address;
  port = p.port;
  interesting = true;
  seed = false;
  last_visited = 0;
  connect_start = 0;
  connect_time = 999999;
  pieces = replicate piece_count false;
  num_completed_pieces = 0;
}

-- What the calls read: this host's addresses and its server's port, which connections were opened
-- by the torrent, so that they point to a peer, the time, and the random numbers.
pub record Host : Type 0 where
  pub addresses : List ℕ
  pub server_port : ℕ
  pub is_outgoing : ℕ → Bool
  pub now : ℕ
  pub qrand : ℕ → ℕ
  pub client_id : Bytes

module _ (h : Host) where
  abbrev pub is_own : TrackerPeer → Bool
  is_own p = Sets.contains h.addresses p.address && p.port == h.server_port

  -- `foreach (TorrentPeer peer, peerList)`.
  unfoldable pub add_peers : ℕ → List TrackerPeer → List Peer → List Peer
  unfolding is_known new_peer
  add_peers count [] ps = ps
  add_peers count (p ∷ more) ps = add_peers count more (
      if is_own p
      then ps
      else if is_known p.address p.port ps
      then ps
      else ps ++ new_peer count p ∷ [])

  -- A connection to the peer that moves more than 1024 bytes a second.
  unfoldable pub is_active : Peer → List Connection → Bool
  is_active p [] = false
  is_active p (k ∷ ks) =
      h.is_outgoing k.number
        && (k.peer_address == p.address && k.peer_port == p.port)
        && ltb 1024 (download_speed k.client + upload_speed k.client)
      || is_active p ks

  -- `toRemove` and the removal: from the front, inactive peers as long as there are too many.
  unfoldable pub remove_inactive : ℕ → List Connection → List Peer → List Peer
  unfolding is_active
  remove_inactive zero ks ps = ps
  remove_inactive (suc excess) ks [] = []
  remove_inactive (suc excess) ks (p ∷ ps) = elim (is_active p ks) [
    | true ↦ p ∷ remove_inactive (suc excess) ks ps
    | false ↦ remove_inactive excess ks ps
  ]

  abbrev pub max_peers : ℕ
  max_peers = max_connections * 3

  -- `if (d->peers.size() > maxPeers)`, with the removal of the oldest.
  unfoldable pub limit_peers : List Connection → List Peer → List Peer
  unfolding remove_inactive
  limit_peers ks ps =
      let fewer = remove_inactive (length ps - max_peers) ks ps in
      if ltb max_peers (length ps) then drop (length fewer - max_peers) fewer else ps

  unfoldable pub merge_peers : List TrackerPeer → Torrent → Torrent
  unfolding add_peers limit_peers
  merge_peers found t = record t {
    peers = limit_peers t.connections (add_peers t.piece_count found t.peers);
  }

  -- A peer is busy with one connection already, the limit for each peer being one.
  unfoldable pub is_busy : Peer → List Connection → Bool
  is_busy p [] = false
  is_busy p (k ∷ ks) =
      k.connected && k.peer_address == p.address && k.peer_port == p.port || is_busy p ks

  unfoldable pub free_peers : List Connection → List Peer → List Peer
  unfolding is_busy
  free_peers ks [] = []
  free_peers ks (p ∷ ps) =
      let rest = free_peers ks ps in
      if not (is_busy p ks) && ltb 30 ((h.now + 2 ^ 32 - p.last_visited) % 2 ^ 32)
      then p ∷ rest
      else rest
