-- ===== src/PeerWire/Protocol/Receiving.antt =====
-- `processIncomingData` of src/peerwireclient.cpp does with each message what the protocol says.
pub mod Sequence
use uenclient.Common.{
  ℕ, zero, suc, ◌+◌, ◌-◌, ◌%◌, ◌≤◌, ◌≡◌, ◌≢◌, refl, Bool, true, false, not, Option, none, List, [],
  ◌∷◌, ◌++◌, Bytes, length, length-append, take, drop, ltb, lt→ltb, ◌==◌, if◌then◌else◌, arith,
  Bool-cases, inl, inr, get_or,
}
use uenclient.PeerWire.Words.{to_network_data, from_network_data-bytes, byte_at}
use uenclient.PeerWire.Client.{TorrentBlock, Client, Slots}
use uenclient.PeerWire.Incoming.{
  Flow, returned, packets, on_have, on_request, on_piece, on_cancel, max_packet_length,
}
use uenclient.PeerWire.Protocol.{
  Message, keep_alive, choke, unchoke, interest, no_interest, have, bit_field, request, piece,
  cancel, body, wire, IsSendable, receive,
}
use uenclient.PeerWire.Protocol.Framing.{with_buffer, announced}

-- The messages on the wire, one behind the other.
abbrev pub wires : List Message → Bytes
wires [] = []
wires (m ∷ ms) = wire m ++ wires ms

abbrev pub AllSendable : List Message → Type 0
AllSendable [] = Unit
AllSendable (m ∷ ms) = IsSendable m × AllSendable ms

-- A client that has received a message, with `rest` still in its buffer.
abbrev pub after_message : Slots → Message → Bytes → Client → Client
after_message emit keep_alive rest c = with_buffer rest c
after_message emit m rest c = record (receive emit m (announced (length (body m)) rest c)) {
  next_packet_length = none;
}

abbrev pub receive_all : Slots → List Message → Client → Client
receive_all emit [] c = with_buffer [] c
receive_all emit (m ∷ ms) c = receive_all emit ms (after_message emit m (wires ms) c)

pub length-body :
    (m : Message)
    → m ≢ keep_alive
    → IsSendable m
    → (n : ℕ) × (length (body m) ≡ suc n) × (suc n ≤ max_packet_length)
unfolding body to_network_data
length-body keep_alive ne h = absurd (ne refl)
length-body choke ne h = (0, refl, omega arith)
length-body unchoke ne h = (0, refl, omega arith)
length-body interest ne h = (0, refl, omega arith)
length-body no_interest ne h = (0, refl, omega arith)
length-body (have i) ne h = (4, refl, omega arith)
length-body (bit_field bits) ne h = (length bits, refl, omega arith)
length-body (request i b l) ne h = (12, refl, omega arith)
length-body (piece i b bytes) ne h = (8 + length bytes, omega arith, omega arith)
length-body (cancel i b l) ne h = (12, refl, omega arith)
