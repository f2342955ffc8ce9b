-- ===== src/PeerWire/Tests.antt =====
-- The theorems on src/peerwireclient.cpp at concrete clients, messages and sockets.
use uenclient.Common.{
  ℕ, ◌+◌, ◌≤◌, ◌≡◌, refl, true, false, Option, some, List, [], ◌∷◌, ◌++◌, Bytes, length, codes, min,
  replicate, arith,
}
use uenclient.PeerWire.Words.{word_at, to_network_data}
use uenclient.PeerWire.Client.{Client, Slots, BlockInfo, new_client, block_received}
use uenclient.PeerWire.Messages.{send_block, block_message, request_block}
use uenclient.PeerWire.Incoming
use uenclient.PeerWire.Incoming.{Flow, proceed, on_piece}
use uenclient.PeerWire.Transfer.{Written, write_to_socket, refill}
use uenclient.PeerWire.Transfer.Stream.{Sent, write_to_socket-Sent}
use uenclient.PeerWire.Protocol.{Message, unchoke, keep_alive, have, piece}
use uenclient.PeerWire.Protocol.Faults.{on_piece-pending_request_timer, send_block-refill}

-- Slots that do nothing.
abbrev quiet : Slots
quiet g c = c

-- A client with the handshake and the peer id behind it, and four pieces.
abbrev peer : Client
peer = record (new_client (codes "-UE0000-123456789012")) {
  received_hand_shake = true;
  got_peer_id = true;
  sent_hand_shake = true;
  info_hash = codes "aaaaaaaaaaaaaaaaaaaa";
  peer_pieces = replicate 4 false;
}

abbrev block : BlockInfo
block = record {
  piece_index = 1;
  offset = 0;
  length_of = 3;
  block = block_message 1 0 (codes "xyz");
}

-- A client with a block to be sent.
abbrev serving : Client
serving = record peer { pending_blocks = block ∷ []; pending_block_sizes = 16 }

abbrev messages : List Message
messages = unchoke ∷ keep_alive ∷ have 2 ∷ piece 1 0 (codes "xyz") ∷ []

-- A socket that takes five bytes at a time.
abbrev five_at_a_time : ℕ → Bytes → Option ℕ
five_at_a_time i offered = some (min 5 (length offered))

takes_offered : (i : ℕ) (o : Bytes) (n : ℕ) → five_at_a_time i o ≡ some n → n ≤ length o
takes_offered i o n e = ground arith

write_to_socket-Sent_example :
    (w : Written) × (write_to_socket five_at_a_time 12 serving ≡ some w) × Sent 12 [] serving w
write_to_socket-Sent_example = write_to_socket-Sent five_at_a_time takes_offered 12 serving

-- Slots that request the next block when one has been received.
abbrev requesting : Slots
requesting (block_received i b x) c = request_block quiet i (b + length x) 3 c
requesting g c = c

abbrev answer : Bytes
answer = 7 ∷ (to_network_data 1 ++ (to_network_data 0 ++ codes "xyz"))

abbrev kept : Flow → Client
kept (proceed d) = d
kept _ = peer

on_piece-pending_request_timer_example :
    (kept (on_piece requesting answer peer)).pending_request_timer ≡ 0
unfolding on_piece request_block to_network_data word_at
on_piece-pending_request_timer_example =
    on_piece-pending_request_timer requesting answer peer (kept (on_piece requesting answer peer))
      refl

send_block-refill_example :
    let d = send_block (λ g e. e) 1 0 (codes "xyz") peer in
    ((refill d.pending_blocks d).pending_blocks ≡ [])
    × ((refill d.pending_blocks d).pending_block_sizes ≡ peer.pending_block_sizes + 13)
unfolding new_client
send_block-refill_example = send_block-refill 1 0 (codes "xyz") peer refl refl (omega arith)
