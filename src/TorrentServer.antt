-- ===== src/TorrentServer.antt =====
-- `TorrentServer` of src/torrentserver.cpp, with the sockets of the rate controller
-- (src/ratecontroller.cpp) and the connections of the connection manager.
pub mod Matching
pub mod Tracking
mod Tests
use uenclient.Common.{
  ℕ, zero, suc, ◌+◌, ◌≤◌, ◌<◌, ◌≡◌, refl, sym, ap, ◌∙◌, Bool, true, false, not, ◌&&◌, Option, none,
  some, List, [], ◌∷◌, ◌++◌, Bytes, same_bytes, ltb, ◌==◌, if◌then◌else◌, is_empty, length, arith,
  Bool-cases, inl, inr, ◌⊎◌, All,
}
use uenclient.Common.Sets
use uenclient.TorrentClient.State.{
  Phase, idle, paused, stopping, preparing, searching, connecting, warming_up, downloading, endgame,
  seeding,
}
use uenclient.ConnectionManager.{
  Manager, can_add_connection, add_connection, remove_connection, max_connections,
}

-- A torrent as the server sees it.
pub record Client : Type 0 where
  pub number : ℕ
  pub state : Phase
  pub info_hash : Bytes

-- The server's torrents; the manager's connections; the controller's sockets; the connections whose
-- handshake the server waits for; and those that a torrent has been given, with its number.
pub record Server : Type 0 where
  pub clients : List Client
  pub manager : Manager
  pub sockets : List ℕ
  pub waiting : List ℕ
  pub handed : List (ℕ × ℕ)

-- `state() >= Searching`.
abbrev pub is_active : Phase → Bool
is_active idle = false
is_active paused = false
is_active stopping = false
is_active preparing = false
is_active _ = true

unfoldable pub add_client : Client → Server → Server
add_client c s = record s { clients = s.clients ++ c ∷ [] }

abbrev pub without : ℕ → List Client → List Client
without n [] = []
without n (c ∷ cs) = let rest = without n cs in if c.number == n then rest else c ∷ rest

unfoldable pub remove_client : ℕ → Server → Server
remove_client n s = record s { clients = without n s.clients }

-- `incomingConnection`, of a socket that could be set up or not. A connection that is not kept is
-- aborted and deleted.
unfoldable pub incoming_connection : ℕ → Bool → Server → Server
unfolding can_add_connection add_connection Sets.insert
incoming_connection peer is_set s =
    if is_set && can_add_connection s.manager && not (is_empty s.clients)
    then record s {
      manager = add_connection peer s.manager;
      sockets = Sets.insert s.sockets peer;
      waiting = Sets.insert s.waiting peer;
    }
    else s

-- The slot `removeClient`, called by a peer.
unfoldable pub remove_peer : ℕ → Server → Server
unfolding remove_connection Sets.remove
remove_peer peer s = record s {
  manager = remove_connection peer s.manager;
  sockets = Sets.remove s.sockets peer;
  waiting = Sets.remove s.waiting peer;
}

abbrev pub wants : Bytes → Client → Bool
wants hash c = is_active c.state && same_bytes c.info_hash hash

-- `foreach (TorrentClient *client, clients)`: the first that is active and has the hash.
unfoldable pub find_client : Bytes → List Client → Option Client
find_client hash [] = none
find_client hash (c ∷ cs) = let rest = find_client hash cs in if wants hash c then some c else rest

-- What `processInfoHash` does with the torrent that it has found, or with none. The torrent's
-- `setupIncomingConnection` adds the socket once more.
unfoldable pub settle : ℕ → Server → Option Client → Server
settle peer s (some c) = record s {
  sockets = Sets.insert s.sockets peer;
  waiting = Sets.remove s.waiting peer;
  handed = s.handed ++ (peer, c.number) ∷ [];
}
settle peer s none = remove_peer peer s

-- `processInfoHash`.
unfoldable pub process_info_hash : ℕ → Bytes → Server → Server
process_info_hash peer hash s = settle peer s (find_client hash s.clients)
