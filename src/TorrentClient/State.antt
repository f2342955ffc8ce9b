-- ===== src/TorrentClient/State.antt =====
-- The state of `TorrentClient`, src/torrentclient.cpp, and the containers that it is kept in.
use uenclient.Common.{
  ℕ, Bool, true, false, ◌&&◌, ◌||◌, Option, none, some, List, [], ◌∷◌, Bytes, ltb, ◌==◌,
  if◌then◌else◌,
}
use uenclient.PeerWire.Client.{Client}

-- `TorrentClient::State`.
pub data Phase : Type 0 where
  idle : Phase
  paused : Phase
  stopping : Phase
  preparing : Phase
  searching : Phase
  connecting : Phase
  warming_up : Phase
  downloading : Phase
  endgame : Phase
  seeding : Phase

abbrev pub is_warming_up : Phase → Bool
is_warming_up warming_up = true
is_warming_up _ = false

abbrev pub is_endgame : Phase → Bool
is_endgame endgame = true
is_endgame _ = false

abbrev pub is_downloading : Phase → Bool
is_downloading downloading = true
is_downloading _ = false

abbrev pub is_seeding : Phase → Bool
is_seeding seeding = true
is_seeding _ = false

-- `state == WarmingUp || state == Endgame`.
abbrev pub is_multi : Phase → Bool
is_multi s = is_warming_up s || is_endgame s

abbrev pub block_size : ℕ
block_size = 16384

abbrev pub max_blocks_in_progress : ℕ
max_blocks_in_progress = 5

abbrev pub max_blocks_in_multi_mode : ℕ
max_blocks_in_multi_mode = 2

pub record TorrentPiece : Type 0 where
  pub index : ℕ
  pub length_of : ℕ
  pub completed_blocks : List Bool
  pub requested_blocks : List Bool
  pub in_progress : Bool

-- `TorrentPeer`. A pointer to it is its address and its port, which no two known peers share.
pub record Peer : Type 0 where
  pub address : ℕ
  pub port : ℕ
  pub interesting : Bool
  pub seed : Bool
  pub last_visited : ℕ
  pub connect_start : ℕ
  pub connect_time : ℕ
  pub pieces : List Bool
  pub num_completed_pieces : ℕ

-- A `PeerWireClient` of the torrent, with the address and the port of its peer. Pointers to it are
-- its number.
pub record Connection : Type 0 where
  pub number : ℕ
  pub connected : Bool
  pub peer_address : ℕ
  pub peer_port : ℕ
  pub client : Client

-- What a call asks the file manager to do.
pub data Order : Type 0 where
  write_block : ℕ → ℕ → Bytes → Order
  verify_piece : ℕ → Order

-- A payload is a client's number and a piece's index: a piece is in `pending_pieces`, once, as long
-- as a payload points to it. The last payload of a client comes first, as in a `QMultiMap`.
pub record Torrent : Type 0 where
  pub state : Phase
  pub connections : List Connection
  pub peers : List Peer
  pub read_ids : List (ℕ × ℕ)
  pub pending_pieces : List TorrentPiece
  pub payloads : List (ℕ × ℕ)
  pub completed_pieces : List Bool
  pub incomplete_pieces : List Bool
  pub piece_count : ℕ
  pub scheduler_called : Bool
  pub seeding_announced : Bool
  pub connector_called : Bool
  pub last_progress : Option ℕ
  pub draws : ℕ
  pub orders : List Order

-- `pendingPieces.value(index)`.
abbrev pub lookup_piece : ℕ → List TorrentPiece → Option TorrentPiece
lookup_piece i [] = none
lookup_piece i (p ∷ ps) = if p.index == i then some p else lookup_piece i ps

-- A change to the piece that a pointer stands for.
abbrev pub update_piece : ℕ → (TorrentPiece → TorrentPiece) → List TorrentPiece → List TorrentPiece
update_piece i f [] = []
update_piece i f (p ∷ ps) =
    let rest = update_piece i f ps in (if p.index == i then f p else p) ∷ rest

abbrev pub remove_piece : ℕ → List TorrentPiece → List TorrentPiece
remove_piece i [] = []
remove_piece i (p ∷ ps) = let rest = remove_piece i ps in if p.index == i then rest else p ∷ rest

-- `pendingPieces.insert(index, piece)`, in the order of the keys.
abbrev pub insert_piece : TorrentPiece → List TorrentPiece → List TorrentPiece
insert_piece p [] = p ∷ []
insert_piece p (q ∷ qs) =
    let rest = insert_piece p qs in
    if ltb p.index q.index then p ∷ q ∷ qs else if p.index == q.index then p ∷ qs else q ∷ rest

-- The payloads without those of a piece.
abbrev pub remove_payloads : ℕ → List (ℕ × ℕ) → List (ℕ × ℕ)
remove_payloads i [] = []
remove_payloads i ((n, j) ∷ ps) =
    let rest = remove_payloads i ps in if j == i then rest else (n, j) ∷ rest

-- The payloads without those of a client.
abbrev pub remove_client_payloads : ℕ → List (ℕ × ℕ) → List (ℕ × ℕ)
remove_client_payloads n [] = []
remove_client_payloads n ((m, j) ∷ ps) =
    let rest = remove_client_payloads n ps in if m == n then rest else (m, j) ∷ rest

-- The pieces of a client's payloads.
abbrev pub pieces_of : ℕ → List (ℕ × ℕ) → List ℕ
pieces_of n [] = []
pieces_of n ((m, j) ∷ ps) = let rest = pieces_of n ps in if m == n then j ∷ rest else rest

abbrev pub lookup_connection : ℕ → List Connection → Option Connection
lookup_connection n [] = none
lookup_connection n (c ∷ cs) = if c.number == n then some c else lookup_connection n cs

-- A call of a method of the client with that number.
abbrev pub call_client : ℕ → (Client → Client) → List Connection → List Connection
call_client n f [] = []
call_client n f (c ∷ cs) =
    let rest = call_client n f cs in
    (if c.number == n then record c { client = f c.client } else c) ∷ rest

abbrev pub remove_connection : ℕ → List Connection → List Connection
remove_connection n [] = []
remove_connection n (c ∷ cs) =
    let rest = remove_connection n cs in if c.number == n then rest else c ∷ rest

-- `readIds` maps a request of the file manager to the client that waits for it.
abbrev pub remove_reader : ℕ → List (ℕ × ℕ) → List (ℕ × ℕ)
remove_reader n [] = []
remove_reader n ((i, m) ∷ rs) =
    let rest = remove_reader n rs in if m == n then rest else (i, m) ∷ rest

abbrev pub remove_peer : ℕ → ℕ → List Peer → List Peer
remove_peer address port [] = []
remove_peer address port (p ∷ ps) =
    let rest = remove_peer address port ps in
    if p.address == address && p.port == port then rest else p ∷ rest

-- `callScheduler`: the slot is called when the event loop is back.
abbrev pub call_scheduler : Torrent → Torrent
call_scheduler t = record t { scheduler_called = true }

abbrev pub set_state : Phase → Torrent → Torrent
set_state s t = record t { state = s }
