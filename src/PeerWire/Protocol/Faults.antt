-- ===== src/PeerWire/Protocol/Faults.antt =====
-- Where `processIncomingData` of src/peerwireclient.cpp and its bookkeeping do not do what they mean
-- to, and the invariant that holds all the same.
use uenclient.Common.{ℕ, ◌+◌, ◌*◌, ◌≤◌, ◌≡◌, refl, false, List, [], ◌∷◌, Bytes, length, ltb, arith}
use uenclient.PeerWire.Words.{to_network_data}
use uenclient.PeerWire.Client.{Client, Slots, BlockInfo}
use uenclient.PeerWire.Messages.{send_block, block_message}
use uenclient.PeerWire.Incoming.{proceed, on_piece}
use uenclient.PeerWire.Transfer.{refill}

-- Whatever the slots of `blockReceived` do, no request timeout is set when a piece packet has been
-- handled: also where they have just requested the next block and started the timer for it.
pub on_piece-pending_request_timer :
    (emit : Slots) (packet : Bytes) (c d : Client)
    → on_piece emit packet c ≡ proceed d
    → d.pending_request_timer ≡ 0
unfolding on_piece
on_piece-pending_request_timer emit packet c d e = ground arith

-- The blocks that wait, by the lengths that `writeToSocket` will take off the count again.
abbrev pub pending_lengths : List BlockInfo → ℕ
pending_lengths [] = 0
pending_lengths (b ∷ bs) = b.length_of + pending_lengths bs

-- The count of pending bytes is never too low, so that it does not fall below zero.
abbrev pub Covers : Client → Type 0
Covers c = pending_lengths c.pending_blocks ≤ c.pending_block_sizes

length-block_message : (p o : ℕ) (x : Bytes) → length (block_message p o x) ≡ length x + 13
unfolding block_message to_network_data
length-block_message p o x = omega arith

-- The count is not exact: a block that has been queued and then moved to the outgoing buffer leaves
-- 13 bytes behind in it, the size of its message's header, with no block pending any more.
pub send_block-refill :
    (p o : ℕ) (x : Bytes) (c : Client)
    → c.pending_blocks ≡ []
    → c.outgoing_buffer ≡ []
    → c.pending_block_sizes + (length x + 13) ≤ 32 * 16384
    → let d = send_block (λ g e. e) p o x c in
      ((refill d.pending_blocks d).pending_blocks ≡ [])
      × ((refill d.pending_blocks d).pending_block_sizes ≡ c.pending_block_sizes + 13)
unfolding send_block
send_block-refill p o x c none_pending none_queued fits =
    let small : ltb 524288 (c.pending_block_sizes + length (block_message p o x)) ≡ false =
      ground (arith, length-block_message p o x) in
    rw small (rw none_pending (rw none_queued (refl, omega (arith, length-block_message p o x))))
