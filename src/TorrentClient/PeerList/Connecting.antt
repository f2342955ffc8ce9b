-- ===== src/TorrentClient/PeerList/Connecting.antt =====
-- Which peers a torrent connects to: `weighedFreePeers` and `connectToPeers` of
-- src/torrentclient.cpp, and `addToPeerList` as a whole.
use uenclient.Common.{
  ℕ, zero, suc, ◌+◌, ◌-◌, ◌*◌, ◌/◌, ◌%◌, Bool, true, false, not, none, some, List, [], ◌∷◌, ◌++◌, ℤ,
  pos, pos_part, neg_part, ◌+ℤ◌, ◌-ℤ◌, length, get_elem?, replicate, ltb, ◌==◌, if◌then◌else◌,
}
use uenclient.Common.Sets
use uenclient.PeerWire.Client.{new_client}
use uenclient.TorrentClient.State.{
  Phase, idle, paused, stopping, searching, connecting, warming_up, is_seeding, Peer, Torrent,
  set_state,
}
use uenclient.TorrentClient.PeerList.{Host, is_at, merge_peers, free_peers}
use uenclient.TrackerClient.State.{TrackerPeer}
use uenclient.ConnectionManager.{Manager, can_add_connection, add_connection, max_connections}

-- "Assign points based on connection speed and pieces available."
unfoldable pub points : Phase → ℕ → Peer → ℤ
unfolding ◌+ℤ◌ ◌-ℤ◌
points phase count p =
    let completed = pos p.num_completed_pieces in
    let wanted = if is_seeding phase then pos count -ℤ completed else completed in
    let known = if p.connect_start == 0 then wanted +ℤ pos count else wanted in
    if not p.interesting
    then pos 0
    else if ltb p.connect_time 5
    then known +ℤ pos (count / 10 * (5 - p.connect_time))
    else known

abbrev ltz : ℤ → ℤ → Bool
ltz a b = ltb (pos_part a + neg_part b) (pos_part b + neg_part a)

-- `qSort(points)`; peers with the same points, which the source orders by their place in memory,
-- stay as they were listed.
unfoldable pub insert_points : ℤ × Peer → List (ℤ × Peer) → List (ℤ × Peer)
insert_points e [] = e ∷ []
insert_points e (d ∷ ds) =
    let rest = insert_points e ds in if ltz e.0 d.0 then e ∷ d ∷ ds else d ∷ rest

unfoldable pub sort_points : Phase → ℕ → List (ℤ × Peer) → List Peer → List (ℤ × Peer)
unfolding insert_points points
sort_points phase count sorted [] = sorted
sort_points phase count sorted (p ∷ ps) =
    sort_points phase count (insert_points (points phase count p, p) sorted) ps

-- `pointMap.insert`: the last of one key comes first.
unfoldable pub insert_level : ℕ × Peer → List (ℕ × Peer) → List (ℕ × Peer)
insert_level e [] = e ∷ []
insert_level e (d ∷ ds) =
    let rest = insert_level e ds in if ltb d.0 e.0 then d ∷ rest else e ∷ d ∷ ds

-- "Minimize the list so the point difference is never more than 1."
unfoldable pub levels : ℤ → ℕ → List (ℕ × Peer) → List (ℤ × Peer) → List (ℕ × Peer)
unfolding insert_level
levels lowest last acc [] = acc
levels lowest last acc ((z, p) ∷ es) =
    let more = ltz lowest z in
    let last' = if more then suc last else last in
    levels (if more then z else lowest) last' (insert_level (last', p) acc) es

-- A peer of a level is listed once more than the level's number.
unfoldable pub list_levels : List (ℕ × Peer) → List Peer
list_levels [] = []
list_levels ((i, p) ∷ es) = replicate (suc i) p ++ list_levels es

-- What `connectToPeers` changes: the torrent, the manager, the rate controller's sockets, and the
-- number of the next connection.
pub record Links : Type 0 where
  pub torrent : Torrent
  pub manager : Manager
  pub sockets : List ℕ
  pub next_number : ℕ

-- A peer that a connection is being opened to.
unfoldable pub visit : ℕ → Peer → List Peer → List Peer
visit now p [] = []
visit now p (q ∷ qs) =
    let rest = visit now p qs in
    if is_at p.address p.port q
    then record q { connect_start = now; last_visited = now } ∷ qs
    else q ∷ rest

-- `weighedPeers.removeAll(peer)`.
unfoldable pub forget : Peer → List Peer → List Peer
forget p [] = []
forget p (q ∷ qs) = let rest = forget p qs in if is_at p.address p.port q then rest else q ∷ rest

module _ (h : Host) where
  unfoldable pub weighed_free_peers : Torrent → List Peer
  unfolding free_peers sort_points levels list_levels
  weighed_free_peers t = list_levels (
      levels (pos 0) 0 []
        (sort_points t.state t.piece_count [] (free_peers h t.connections t.peers)))

  -- One turn: a new connection to the peer.
  unfoldable pub open_connection : Peer → Links → Links
  unfolding visit add_connection new_client
  open_connection p l =
      let t = l.torrent in
      record l {
        torrent = record t {
          connections =
              t.connections
              ++ record {
                number = l.next_number;
                connected = false;
                peer_address = p.address;
                peer_port = p.port;
                client = new_client h.client_id;
              }
                ∷ [];
          peers = visit h.now p t.peers;
          draws = suc t.draws;
        };
        manager = add_connection l.next_number l.manager;
        sockets = Sets.insert l.sockets l.next_number;
        next_number = suc l.next_number;
      }

  -- The test of the loop that draws a number.
  abbrev pub note_draw : Links → Links
  note_draw l = let t = l.torrent in record l { torrent = record t { draws = suc t.draws } }

  -- The loop, with a turn for each peer listed.
  unfoldable pub open_connections : ℕ → List Peer → Links → Links
  unfolding open_connection forget can_add_connection
  open_connections zero ps l = l
  open_connections (suc f) [] l = l
  open_connections (suc f) (p ∷ ps) l = elim (can_add_connection l.manager) [
    | false ↦ l
    | true ↦ elim (h.qrand l.torrent.draws % (max_connections / 2)) [
      | zero ↦ note_draw l
      | suc _ ↦
          let drawn = note_draw l in
          elim (get_elem? (p ∷ ps) (h.qrand drawn.torrent.draws % length (p ∷ ps))) [
            | none ↦ drawn
            | some q ↦ open_connections f (forget q (p ∷ ps)) (open_connection q drawn)
          ]
    ]
  ]

  -- `connectToPeers`.
  unfoldable pub connect_to_peers : Links → Links
  unfolding weighed_free_peers open_connections
  connect_to_peers l =
      let t : Torrent = record (l.torrent) { connector_called = false } in
      let begun : Torrent = elim t.state [ searching ↦ set_state connecting t | _ ↦ t ] in
      let weighed = weighed_free_peers begun in
      let all = open_connections (length weighed) weighed (record l { torrent = begun }) in
      elim t.state [
        | stopping ↦ record l { torrent = t }
        | idle ↦ record l { torrent = t }
        | paused ↦ record l { torrent = t }
        | _ ↦ all
      ]

  -- `addToPeerList`.
  unfoldable pub add_to_peer_list : List TrackerPeer → Links → Links
  unfolding connect_to_peers
  add_to_peer_list found l =
      let l' : Links = record l { torrent = merge_peers h found l.torrent } in
      let later : Links = record l {
        torrent = record (merge_peers h found l.torrent) { connector_called = true };
      } in
      let now = connect_to_peers l' in
      elim l.torrent.state [
        | paused ↦ l'
        | stopping ↦ l'
        | idle ↦ l'
        | searching ↦ now
        | warming_up ↦ now
        | _ ↦ later
      ]
