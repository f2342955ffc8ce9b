-- ===== src/TorrentClient/Receiving.antt =====
-- `TorrentClient` of src/torrentclient.cpp when a block arrives, a piece has been verified, or a
-- peer chokes or leaves.
use uenclient.Common.{
  ℕ, zero, suc, ◌*◌, ◌/◌, Bool, true, false, not, ◌&&◌, ◌||◌, Option, none, some, List, [], ◌∷◌,
  ◌++◌, Bytes, length, set, get_or, get_elem?, replicate, map, is_empty, ltb, ◌==◌, if◌then◌else◌,
}
use uenclient.PeerWire.Client.{TorrentBlock, same_block, Slots, abort}
use uenclient.PeerWire.Messages.{cancel_request, send_piece_notification, count_true}
use uenclient.TorrentClient.State.{
  downloading, endgame, seeding, is_downloading, is_endgame, is_seeding, is_multi, block_size,
  TorrentPiece, Peer, Connection, write_block, verify_piece, Torrent, lookup_piece, update_piece,
  remove_piece, remove_payloads, remove_client_payloads, pieces_of, lookup_connection, call_client,
  remove_connection, remove_reader, remove_peer, call_scheduler, set_state,
}
use uenclient.TorrentClient.Blocks.{blocks_left_for_piece, request_more}

-- `QBitArray::fill(false)`.
abbrev pub clear_all : List Bool → List Bool
clear_all bits = replicate (length bits) false

-- `lastProgressValue` after `updateProgress()`, with `none` for -1.
abbrev pub progress_of : ℕ → List Bool → Option ℕ
progress_of zero completed = none
progress_of (suc n) completed = some (count_true completed * 100 / suc n)

unfoldable pub update_progress : Torrent → Torrent
update_progress t = record t { last_progress = progress_of t.piece_count t.completed_pieces }

abbrev pub contains_block : TorrentBlock → List TorrentBlock → Bool
contains_block b [] = false
contains_block b (x ∷ xs) = same_block x b || contains_block b xs

module _ (emit : Slots) where
  -- The loop over the payloads that cancels a block at all clients but client `n`.
  unfoldable pub cancel_duplicates :
      ℕ → TorrentBlock → List (ℕ × ℕ) → List Connection → List Connection
  unfolding cancel_request
  cancel_duplicates n b [] cs = cs
  cancel_duplicates n b ((m, j) ∷ ps) cs =
      let cancelled : List Connection = elim (lookup_connection m cs) [
        | none ↦ cs
        | some k ↦
            if contains_block b k.client.incoming
            then call_client m (cancel_request emit b.piece_index b.offset b.length_of) cs
            else cs
      ] in
      cancel_duplicates n b ps (if not (m == n) && j == b.piece_index then cancelled else cs)

abbrev pub complete_block : ℕ → TorrentPiece → TorrentPiece
complete_block bit p = record p {
  completed_blocks = set p.completed_blocks bit true;
  requested_blocks = set p.requested_blocks bit false;
}

-- In the warmup and the endgame other clients may have requested the same block.
unfoldable pub cancel_others : Slots → ℕ → TorrentBlock → Torrent → Torrent
cancel_others emit n b t =
    if is_multi t.state
    then record t { connections = cancel_duplicates emit n b t.payloads t.connections }
    else t

unfoldable pub note_download : Torrent → Torrent
note_download t =
    if not (is_downloading t.state)
      && not (is_endgame t.state)
      && ltb 0 (count_true t.completed_pieces)
    then set_state downloading t
    else t

-- `fileManager.write`, and the bits of the block.
unfoldable pub put_block : ℕ → ℕ → Bytes → Torrent → Torrent
put_block i begin bytes t = record t {
  orders = t.orders ++ (write_block i begin bytes ∷ []);
  pending_pieces = update_piece i (complete_block (begin / block_size)) t.pending_pieces;
}

-- `fileManager.verifyPiece`, when no block of the piece is left.
unfoldable pub ask_verification : TorrentPiece → Torrent → Torrent
ask_verification p t =
    if blocks_left_for_piece p == 0
    then record t {
      orders = t.orders ++ (verify_piece p.index ∷ []);
      payloads = remove_payloads p.index t.payloads;
    }
    else t

module _ (emit : Slots) (qrand : ℕ → ℕ) where
  -- What is done with a block of a pending piece that is not completed.
  unfoldable pub store_block : ℕ → ℕ → Bytes → TorrentPiece → Torrent → Torrent
  store_block n begin bytes p t =
      let b : TorrentBlock = record {
        piece_index = p.index;
        offset = begin;
        length_of = length bytes;
      } in
      ask_verification (complete_block (begin / block_size) p)
        (put_block p.index begin bytes (note_download (cancel_others emit n b t)))

  -- `blockReceived` of client `n`. No value: `testBit` beyond the end of the array.
  unfoldable pub block_received : ℕ → ℕ → ℕ → Bytes → Torrent → Option Torrent
  block_received n piece_index begin bytes t =
      if is_empty bytes
      then some (record t { connections = call_client n abort t.connections })
      else elim (lookup_piece piece_index t.pending_pieces) [
        | none ↦ some (request_more emit qrand n t)
        | some p ↦ elim (get_elem? p.completed_blocks (begin / block_size)) [
          | none ↦ none
          | some true ↦ some (request_more emit qrand n t)
          | some false ↦ some (request_more emit qrand n (store_block n begin bytes p t))
        ]
      ]

-- Whether a peer has a piece that is incomplete, of `k` pieces from `i` on.
unfoldable pub has_interest : ℕ → ℕ → List Bool → List Bool → Bool
has_interest zero i pieces incomplete = false
has_interest (suc k) i pieces incomplete =
    (get_or pieces i false && get_or incomplete i false) || has_interest k (suc i) pieces incomplete

-- `peer->interesting`, which is computed anew for peers that are interesting.
abbrev pub update_interest : ℕ → List Bool → Peer → Peer
update_interest count incomplete p =
    if p.interesting then record p { interesting = has_interest count 0 p.pieces incomplete } else p

abbrev pub clear_piece : TorrentPiece → TorrentPiece
clear_piece p = record p {
  in_progress = false;
  completed_blocks = clear_all p.completed_blocks;
  requested_blocks = clear_all p.requested_blocks;
}

module _ (emit : Slots) where
  -- The loop that tells the connected peers of a piece that they do not have.
  unfoldable pub notify_peers : ℕ → List Connection → List Connection
  unfolding send_piece_notification
  notify_peers i [] = []
  notify_peers i (c ∷ cs) =
      (if c.connected && not (get_or c.client.peer_pieces i false)
        then record c { client = send_piece_notification emit i c.client }
        else c)
      ∷ notify_peers i cs

  -- The state that the client is in when a piece has been completed.
  unfoldable pub after_completion : Torrent → Torrent
  after_completion t =
      let completed : ℕ = count_true t.completed_pieces in
      let incomplete : ℕ = count_true t.incomplete_pieces in
      if completed == t.piece_count
      then if is_seeding t.state then t else record t { state = seeding; seeding_announced = true }
      else call_scheduler (
          if completed == 1
          then set_state downloading t
          else if ltb incomplete 5 && ltb incomplete (length t.pending_pieces)
          then set_state endgame t
          else t)

  -- `pieceVerified`. No value: the piece is not pending, and a null pointer is used.
  unfoldable pub piece_verified : ℕ → Bool → Torrent → Option Torrent
  piece_verified i false t = elim (lookup_piece i t.pending_pieces) [
    | none ↦ none
    | some p ↦ some (
        call_scheduler (record t {
          payloads = remove_payloads i t.payloads;
          pending_pieces = update_piece i clear_piece t.pending_pieces;
        }))
  ]
  piece_verified i true t = some (
      update_progress (
        after_completion (record t {
          payloads = remove_payloads i t.payloads;
          peers = map (update_interest t.piece_count t.incomplete_pieces) t.peers;
          pending_pieces = remove_piece i t.pending_pieces;
          completed_pieces = set t.completed_pieces i true;
          incomplete_pieces = set t.incomplete_pieces i false;
          connections = notify_peers i t.connections;
        })))

abbrev pub release_piece : TorrentPiece → TorrentPiece
release_piece p = record p { in_progress = false; requested_blocks = clear_all p.requested_blocks }

abbrev pub release_all : List ℕ → List TorrentPiece → List TorrentPiece
release_all [] ps = ps
release_all (i ∷ is) ps = release_all is (update_piece i release_piece ps)

-- `peerChoked` of client `n`.
unfoldable pub peer_choked : ℕ → Torrent → Torrent
peer_choked n t = record t {
  pending_pieces = release_all (pieces_of n t.payloads) t.pending_pieces;
  payloads = remove_client_payloads n t.payloads;
}

-- `removeClient` of client `n`, whose peer is forgotten if it has refused the connection.
unfoldable pub remove_client : ℕ → Bool → Torrent → Torrent
unfolding peer_choked
remove_client n refused t =
    let peers : List Peer = elim (lookup_connection n t.connections) [
      | none ↦ t.peers
      | some k ↦ if refused then remove_peer k.peer_address k.peer_port t.peers else t.peers
    ] in
    record (peer_choked n t) {
      peers = peers;
      connections = remove_connection n t.connections;
      read_ids = remove_reader n t.read_ids;
      connector_called = true;
    }
