-- ===== src/PeerWire/Protocol.antt =====
-- The messages of the peer wire protocol, written down independently of src/peerwireclient.cpp: how
-- each stands on the wire, and what a client that receives it does.
pub mod Framing
pub mod Receiving
pub mod Sending
pub mod Faults
use uenclient.Common.{
  ℕ, zero, suc, ◌+◌, ◌≤◌, ◌<◌, ◌≡◌, Bool, true, false, Option, none, some, List, [], ◌∷◌, ◌++◌,
  Bytes, length, set, ltb, ◌==◌, if◌then◌else◌,
}
use uenclient.PeerWire.Words.{to_network_data, word_limit}
use uenclient.PeerWire.Client.{
  TorrentBlock, Client, Slots, choked, unchoked, interested, not_interested, pieces_available,
  block_requested, block_received, kill_timer, kill_pending_request_timer,
}
use uenclient.PeerWire.Messages.{remove_all}
use uenclient.PeerWire.Incoming.{mark_bytes, cancel_block, max_packet_length}

pub data Message : Type 0 where
  keep_alive : Message
  choke : Message
  unchoke : Message
  interest : Message
  no_interest : Message
  have : ℕ → Message
  bit_field : Bytes → Message
  request : ℕ → ℕ → ℕ → Message
  piece : ℕ → ℕ → Bytes → Message
  cancel : ℕ → ℕ → ℕ → Message

-- The type of a message and what follows it; a keep-alive has neither.
unfoldable pub body : Message → Bytes
unfolding to_network_data
body keep_alive = []
body choke = 0 ∷ []
body unchoke = 1 ∷ []
body interest = 2 ∷ []
body no_interest = 3 ∷ []
body (have i) = 4 ∷ to_network_data i
body (bit_field bits) = 5 ∷ bits
body (request i b l) = 6 ∷ (to_network_data i ++ (to_network_data b ++ to_network_data l))
body (piece i b bytes) = 7 ∷ (to_network_data i ++ (to_network_data b ++ bytes))
body (cancel i b l) = 8 ∷ (to_network_data i ++ (to_network_data b ++ to_network_data l))

-- A message on the wire: the length of its body, and the body.
unfoldable pub wire : Message → Bytes
unfolding body
wire m = to_network_data (length (body m)) ++ body m

-- Numbers are words, and the body is not longer than a client accepts.
abbrev pub IsSendable : Message → Type 0
IsSendable (have i) = i < word_limit
IsSendable (bit_field bits) = length bits < max_packet_length
IsSendable (request i b l) = (i < word_limit) × (b < word_limit) × (l < word_limit)
IsSendable (piece i b bytes) =
    (i < word_limit) × (b < word_limit) × (length bytes + 9 ≤ max_packet_length)
IsSendable (cancel i b l) = (i < word_limit) × (b < word_limit) × (l < word_limit)
IsSendable _ = Unit

-- The request that a received block answers is done with, and so is its timeout.
abbrev pub answered : Slots → ℕ → ℕ → Bytes → Client → Client
answered emit i b bytes c =
    let block : TorrentBlock = record { piece_index = i; offset = b; length_of = length bytes } in
    let d : Client =
      emit (block_received i b bytes) (record c { incoming = remove_all block c.incoming }) in
    if d.pending_request_timer == 0
    then d
    else record (kill_timer d.pending_request_timer d) { pending_request_timer = 0 }

-- What a client does on a message.
unfoldable pub receive : Slots → Message → Client → Client
receive emit keep_alive c = c
receive emit choke c =
    emit choked (kill_pending_request_timer (record c { choked_by_peer = true; incoming = [] }))
receive emit unchoke c = emit unchoked (record c { choked_by_peer = false })
receive emit interest c = emit interested (record c { peer_is_interested = true })
receive emit no_interest c = emit not_interested (record c { peer_is_interested = false })
receive emit (have i) c =
    let d : Client =
      if ltb i (length c.peer_pieces)
      then record c { peer_pieces = set c.peer_pieces i true }
      else c in
    emit (pieces_available d.peer_pieces) d
receive emit (bit_field bits) c =
    let d : Client = record c { peer_pieces = mark_bytes bits 0 c.peer_pieces } in
    emit (pieces_available d.peer_pieces) d
receive emit (request i b l) c = emit (block_requested i b l) c
receive emit (piece i b bytes) c = answered emit i b bytes c
receive emit (cancel i b l) c = record c { pending_blocks = cancel_block i b l c.pending_blocks }
