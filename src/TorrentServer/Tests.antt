-- ===== src/TorrentServer/Tests.antt =====
-- The theorems on src/torrentserver.cpp at a server of two torrents, of which one is paused.
use uenclient.Common.{◌≡◌, ◌⊎◌, true, false, [], ◌∷◌, arith}
use uenclient.Common.Sets
use uenclient.TorrentClient.State.{paused, downloading}
use uenclient.TorrentServer.{Server, incoming_connection, process_info_hash}
use uenclient.TorrentServer.Matching.{IsHanded, IsDropped, process_info_hash_lem}
use uenclient.TorrentServer.Tracking.{arrived, identified, here, next, IsTracked, Reaches-IsTracked}

abbrev server : Server
server = record {
  clients =
      record { number = 1; state = paused; info_hash = 7 ∷ [] }
      ∷ record { number = 2; state = downloading; info_hash = 7 ∷ [] }
      ∷ [];
  manager = record { connections = []; id = [] };
  sockets = [];
  waiting = [];
  handed = [];
}

server-IsTracked : IsTracked server
server-IsTracked = record { few = omega arith; managed = λ k e. cc; has_socket = λ k e. cc }

abbrev visited : Server
visited = process_info_hash 9 (7 ∷ []) (incoming_connection 9 true server)

Reaches-IsTracked_example : IsTracked visited
Reaches-IsTracked_example =
    Reaches-IsTracked server-IsTracked (next (next here (arrived 9 true)) (identified 9 (7 ∷ [])))

process_info_hash_lem_example :
    (IsHanded 9 (7 ∷ []) server (process_info_hash 9 (7 ∷ []) server)
      ⊎ IsDropped 9 (7 ∷ []) server (process_info_hash 9 (7 ∷ []) server))
    × (Sets.contains (process_info_hash 9 (7 ∷ []) server).waiting 9 ≡ false)
process_info_hash_lem_example = process_info_hash_lem 9 (7 ∷ []) server
