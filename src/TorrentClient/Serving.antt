-- ===== src/TorrentClient/Serving.antt =====
-- What a torrent of src/torrentclient.cpp does with its peers' requests and announcements, the bytes
-- that they move, and new connections.
pub mod Rates
pub mod Answers
use uenclient.Common.{
  ℕ, zero, suc, ◌+◌, ◌-◌, ◌%◌, Bool, true, false, not, ◌&&◌, ◌||◌, Option, none, some, List, [],
  ◌∷◌, ◌++◌, Bytes, length, take, replicate, get_or, ltb, ◌==◌, if◌then◌else◌,
}
use uenclient.Common.Sets
use uenclient.PeerWire.Client.{Client, Slots, abort}
use uenclient.PeerWire.Messages.{
  initialize, send_piece_list, send_interested, send_not_interested, send_block, count_true,
}
use uenclient.TorrentClient.State.{
  Phase, searching, connecting, warming_up, endgame, is_seeding, TorrentPiece, Peer, Connection,
  Torrent, lookup_connection, call_client, call_scheduler, pieces_of, lookup_piece, set_state,
}
use uenclient.TorrentClient.PeerList.{is_at}

-- `readIds.value` and `readIds.remove`.
abbrev pub reader_of : ℕ → List (ℕ × ℕ) → Option ℕ
reader_of i [] = none
reader_of i ((j, n) ∷ rs) = if j == i then some n else reader_of i rs

abbrev pub remove_read : ℕ → List (ℕ × ℕ) → List (ℕ × ℕ)
remove_read i [] = []
remove_read i ((j, n) ∷ rs) = let rest = remove_read i rs in if j == i then rest else (j, n) ∷ rest

abbrev pub update_peer : ℕ → ℕ → (Peer → Peer) → List Peer → List Peer
update_peer address port f [] = []
update_peer address port f (p ∷ ps) =
    let rest = update_peer address port f ps in if is_at address port p then f p ∷ ps else p ∷ rest

-- How many blocks of the client's pieces in progress are requested.
abbrev pub blocks_in_progress : List TorrentPiece → List ℕ → ℕ
blocks_in_progress pending [] = 0
blocks_in_progress pending (i ∷ is) =
    (elim (lookup_piece i pending) [
      | none ↦ 0
      | some p ↦ if p.in_progress then count_true p.requested_blocks else 0
    ])
    + blocks_in_progress pending is

-- A piece that the peer has and this torrent has not.
abbrev pub has_wanted : List Bool → List Bool → Bool
has_wanted [] completed = false
has_wanted (b ∷ bits) [] = b || has_wanted bits []
has_wanted (b ∷ bits) (c ∷ completed) = b && not c || has_wanted bits completed

module _ (emit : Slots) where
  -- `sendToPeer`.
  unfoldable pub send_to_peer : ℕ → ℕ → ℕ → Bytes → Torrent → Torrent
  send_to_peer read_id piece begin bytes t =
      let send : Client → Client =
        λ c. if c.choking_peer then c else send_block emit piece begin bytes c in
      let sent : List Connection = elim (reader_of read_id t.read_ids) [
        | none ↦ t.connections
        | some n ↦ call_client n send t.connections
      ] in
      record t { connections = sent; read_ids = remove_read read_id t.read_ids }

  -- A peer that has every piece.
  unfoldable pub greet_seed : Connection → Torrent → Torrent
  unfolding send_interested
  greet_seed k t =
      let seeds : List Peer =
        update_peer k.peer_address k.peer_port (λ p. record p { seed = true }) t.peers in
      let keen : List Peer =
        update_peer k.peer_address k.peer_port (λ p. record p { seed = true; interesting = true })
          t.peers in
      let ask : Client → Client = λ c. if c.interested_in_peer then c else send_interested emit c in
      if is_seeding t.state
      then record t { peers = seeds; connections = call_client k.number abort t.connections }
      else call_scheduler
          (record t { peers = keen; connections = call_client k.number ask t.connections })

  -- Any other peer: the torrent says whether it is interested.
  unfoldable pub weigh_peer : Connection → List Bool → Torrent → Torrent
  unfolding send_interested send_not_interested
  weigh_peer k bits t =
      let noted : List Peer =
        update_peer k.peer_address k.peer_port
          (λ p. record p { pieces = bits; num_completed_pieces = count_true bits }) t.peers in
      let mark : Bool → List Peer =
        λ b. update_peer k.peer_address k.peer_port (λ p. record p { interesting = b }) noted in
      let old : Bool = k.client.interested_in_peer in
      let asked : Torrent = if old then record t { peers = noted } else record t {
        peers = mark true;
        connections = call_client k.number (send_interested emit) t.connections;
      } in
      let idle_client : Bool =
        blocks_in_progress t.pending_pieces (pieces_of k.number t.payloads) == 0 in
      let left : Torrent =
        if old
        then record t {
          peers = mark false;
          connections = call_client k.number (send_not_interested emit) t.connections;
        }
        else record t { peers = noted } in
      if has_wanted bits t.completed_pieces
      then if idle_client then call_scheduler asked else asked
      else left

  -- `peerPiecesAvailable`, sent by client `n`.
  unfoldable pub peer_pieces_available : ℕ → List Bool → Torrent → Torrent
  unfolding greet_seed weigh_peer
  peer_pieces_available n bits t = elim (lookup_connection n t.connections) [
    | none ↦ t
    | some k ↦ if count_true bits == t.piece_count then greet_seed k t else weigh_peer k bits t
  ]

  -- `client->initialize(…); client->sendPieceList(…)`, and the states of a first connection.
  unfoldable pub greet : Bytes → ℕ → Torrent → Torrent
  unfolding initialize send_piece_list
  greet hash n t =
      let hello : Client → Client =
        λ c. send_piece_list emit t.completed_pieces (initialize emit hash t.piece_count c) in
      let u : Torrent = record t { connections = call_client n hello t.connections } in
      let missing : ℕ = count_true t.incomplete_pieces in
      let begun : Torrent =
        if count_true t.completed_pieces == 0
        then set_state warming_up u
        else if ltb missing 5 && ltb missing (length t.pending_pieces)
        then set_state endgame u
        else u in
      elim t.state [ searching ↦ begun | connecting ↦ begun | _ ↦ u ]

  -- `setupOutgoingConnection`; the two times are set together, so that their difference is taken
  -- between equal numbers.
  unfoldable pub setup_outgoing_connection : Bytes → Connection → Torrent → Torrent
  unfolding greet
  setup_outgoing_connection hash k t = greet hash k.number (record t {
    peers =
        update_peer k.peer_address k.peer_port
          (λ p. record p {
            connect_time = (p.last_visited + 4294967296 - p.connect_start) % 4294967296;
          })
          t.peers;
  })

  -- `setupIncomingConnection`; the list of connections is not empty at its end.
  unfoldable pub setup_incoming_connection : Bytes → Connection → Torrent → Torrent
  unfolding greet
  setup_incoming_connection hash k t =
      greet hash k.number (record t { connections = t.connections ++ k ∷ [] })

-- `peerRequestsBlock`, sent by client `n`; `request` is what `FileManager::read` returns. The result
-- says whether the file manager is asked.
unfoldable pub peer_requests_block : ℕ → ℕ → ℕ → Torrent → Bool × Torrent
peer_requests_block n request piece t = elim (lookup_connection n t.connections) [
  | none ↦ (false, t)
  | some k ↦
      if k.client.choking_peer
      then (false, t)
      else if not (get_or t.completed_pieces piece false)
      then (false, t)
      else (true, record t { read_ids = (request, n) ∷ remove_read request t.read_ids })
]

-- `peerUnchoked`.
unfoldable pub peer_unchoked : Torrent → Torrent
peer_unchoked t = if is_seeding t.state then t else call_scheduler t
