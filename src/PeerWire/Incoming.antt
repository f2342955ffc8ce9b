-- ===== src/PeerWire/Incoming.antt =====
-- `processIncomingData` of src/peerwireclient.cpp: the handshake, the peer id and the packets.
use uenclient.Common.{
  ℕ, zero, suc, ◌+◌, ◌-◌, ◌/◌, ◌%◌, ◌^◌, Bool, true, false, not, ◌&&◌, Option, none, some, List, [],
  ◌∷◌, Bytes, same_bytes, length, take, drop, set, get_or, is_empty, ltb, ◌==◌, if◌then◌else◌,
}
use uenclient.PeerWire.Words.{word_at, word_limit, from_network_data}
use uenclient.PeerWire.Client.{
  TorrentBlock, BlockInfo, Client, Slots, info_hash_received, choked, unchoked, interested,
  not_interested, pieces_available, block_requested, block_received, start_timer, kill_timer,
  kill_pending_request_timer, abort,
}
use uenclient.PeerWire.Messages.{protocol_id, remove_all, ensure_hand_shake}

-- A part of the method lets the next part run, or returns to wait for data, or returns after an
-- `abort()`, or reads behind the end of a packet, which C++ leaves undefined.
pub data Flow : Type 0 where
  proceed : Client → Flow
  returned : Client → Flow
  closed : Client → Flow
  fault : Flow
  out_of_fuel : Flow

abbrev pub next : Flow → (Client → Flow) → Flow
next (proceed c) k = k c
next (returned c) k = returned c
next (closed c) k = closed c
next fault k = fault
next out_of_fuel k = out_of_fuel

-- `read(n)`: what it returns, and what it leaves.
abbrev pub read : ℕ → Client → Bytes
read n c = take n c.incoming_buffer

abbrev pub skip : ℕ → Client → Client
skip n c = record c { incoming_buffer = drop n c.incoming_buffer }

abbrev pub minimal_header_size : ℕ
minimal_header_size = 48

abbrev pub max_packet_length : ℕ
max_packet_length = 200000

-- `nextPacketLength = fromNetworkData(tmp)`: the pattern of -1 is the mark for no length.
abbrev pub to_length : ℕ → Option ℕ
to_length n = if n == 4294967295 then none else some n

-- One byte of a bit field, from bit `i` on: `k` bits are left.
unfoldable pub mark_bits : ℕ → ℕ → ℕ → List Bool → List Bool
mark_bits zero byte i pieces = pieces
mark_bits (suc k) byte i pieces =
    mark_bits k byte (i + 1)
      (if byte / 2 ^ k % 2 == 1 && ltb i (length pieces) then set pieces i true else pieces)

-- The loop over the bytes of a bit field.
unfoldable pub mark_bytes : Bytes → ℕ → List Bool → List Bool
unfolding mark_bits
mark_bytes [] i pieces = pieces
mark_bytes (b ∷ bs) i pieces = mark_bytes bs (i + 8) (mark_bits 8 b i pieces)

-- The first pending block with these numbers is removed.
unfoldable pub cancel_block : ℕ → ℕ → ℕ → List BlockInfo → List BlockInfo
cancel_block index begin len [] = []
cancel_block index begin len (b ∷ bs) =
    if b.piece_index == index && b.offset == begin && b.length_of == len
    then bs
    else b ∷ cancel_block index begin len bs

-- `if (packetWord) …`: a word that is not there is a fault.
abbrev pub with_word : Option ℕ → (ℕ → Flow) → Flow
with_word none k = fault
with_word (some n) k = k n

-- `packet.size() - 9` as an `int`.
abbrev pub payload_size : Bytes → ℕ
payload_size packet = (length packet + word_limit - 9) % word_limit

module _ (emit : Slots) where
  -- The handshake, unless it has been received.
  unfoldable pub hand_shake : Client → Flow
  unfolding ensure_hand_shake same_bytes
  hand_shake c =
      let id : Bytes = read 20 c in
      let c1 : Client = skip 20 c in
      let c2 : Client = skip 8 c1 in
      let hash : Bytes = read 20 c2 in
      let c3 : Client = skip 20 c2 in
      let c4 : Client = emit (info_hash_received hash) c3 in
      let c5 : Client = ensure_hand_shake emit c4 in
      if c.received_hand_shake
      then proceed c
      else if ltb (length c.incoming_buffer) minimal_header_size
      then returned c
      else if not (same_bytes id (19 ∷ protocol_id))
      then closed (abort c1)
      else if not (is_empty c3.info_hash) && not (same_bytes hash c3.info_hash)
      then closed (abort c3)
      else if is_empty c4.info_hash
      then closed (abort c4)
      else proceed (record c5 { received_hand_shake = true })

  unfoldable pub peer_id : Client → Flow
  unfolding same_bytes
  peer_id c =
      let c1 : Client = skip 20 (record c { got_peer_id = true }) in
      if c.got_peer_id
      then proceed c
      else if ltb (length c.incoming_buffer) 20
      then returned c
      else if same_bytes (read 20 c) c.peer_id_string
      then closed (abort c1)
      else proceed c1

  unfoldable pub keep_alive : Client → Client
  keep_alive c =
      let t : Client = start_timer c in
      if c.keep_alive_timer == 0 then record t { keep_alive_timer = t.last_timer } else c

  -- The length of the next packet, unless it is known.
  unfoldable pub packet_length : Client → Flow
  unfolding from_network_data
  packet_length c =
      let b : Bytes = c.incoming_buffer in
      let n : ℕ = from_network_data (get_or b 0 0) (get_or b 1 0) (get_or b 2 0) (get_or b 3 0) in
      let c1 : Client = record (skip 4 c) { next_packet_length = to_length n } in
      elim c.next_packet_length [
        | some n ↦ proceed c
        | none ↦
            if ltb (length b) 4
            then returned c
            else if ltb max_packet_length n
            then closed (abort c1)
            else proceed c1
      ]

  -- The cases of the `switch` over the packet types.
  unfoldable pub on_choke : Client → Flow
  on_choke c =
      proceed (
        emit choked
          (kill_pending_request_timer (record c { choked_by_peer = true; incoming = [] })))

  unfoldable pub on_have : Bytes → Client → Flow
  on_have packet c = with_word (word_at packet 1) λ index.
      let d : Client =
        if ltb index (length c.peer_pieces)
        then record c { peer_pieces = set c.peer_pieces index true }
        else c in
      proceed (emit (pieces_available d.peer_pieces) d)

  unfoldable pub on_bit_field : Bytes → Client → Flow
  on_bit_field packet c =
      let d : Client = record c { peer_pieces = mark_bytes (drop 1 packet) 0 c.peer_pieces } in
      proceed (emit (pieces_available d.peer_pieces) d)

  unfoldable pub on_request : Bytes → Client → Flow
  on_request packet c = with_word (word_at packet 1) λ index. with_word (word_at packet 5) λ begin.
      with_word (word_at packet 9) λ len. proceed (emit (block_requested index begin len) c)

  -- The timer is killed after the slots of `blockReceived` have run.
  unfoldable pub on_piece : Bytes → Client → Flow
  on_piece packet c = with_word (word_at packet 1) λ index. with_word (word_at packet 5) λ begin.
      let block : TorrentBlock = record {
        piece_index = index;
        offset = begin;
        length_of = payload_size packet;
      } in
      let d : Client =
        emit (block_received index begin (drop 9 packet))
          (record c { incoming = remove_all block c.incoming }) in
      proceed (
        if d.pending_request_timer == 0
        then d
        else record (kill_timer d.pending_request_timer d) { pending_request_timer = 0 })

  unfoldable pub on_cancel : Bytes → Client → Flow
  on_cancel packet c = with_word (word_at packet 1) λ index. with_word (word_at packet 5) λ begin.
      with_word (word_at packet 9)
        λ len. proceed (record c { pending_blocks = cancel_block index begin len c.pending_blocks })

  -- The `switch`.
  unfoldable pub dispatch : Bytes → Client → Flow
  unfolding on_choke on_have on_bit_field on_request on_piece on_cancel
  dispatch packet c =
      let type : ℕ = get_or packet 0 0 in
      if type == 0
      then on_choke c
      else if type == 1
      then proceed (emit unchoked (record c { choked_by_peer = false }))
      else if type == 2
      then proceed (emit interested (record c { peer_is_interested = true }))
      else if type == 3
      then proceed (emit not_interested (record c { peer_is_interested = false }))
      else if type == 4
      then on_have packet c
      else if type == 5
      then on_bit_field packet c
      else if type == 6
      then on_request packet c
      else if type == 7
      then on_piece packet c
      else if type == 8
      then on_cancel packet c
      else proceed c

  -- The rest of a turn, once the length is known.
  unfoldable pub packet_body : Client → Flow
  unfolding dispatch
  packet_body c = elim c.next_packet_length [
    | none ↦ fault
    | some n ↦
        if n == 0
        then proceed (record c { next_packet_length = none })
        else if ltb (length c.incoming_buffer) n
        then returned c
        else if not (length (read n c) == n)
        then closed (abort (skip n c))
        else next (dispatch (read n c) (skip n c))
            λ d. proceed (record d { next_packet_length = none })
  ]

  unfoldable pub turn : Client → Flow
  unfolding packet_length packet_body
  turn c = next (packet_length c) packet_body

  -- `do … while (bytesAvailable() > 0)`.
  unfoldable pub packets : ℕ → Client → Flow
  unfolding turn
  packets zero c = out_of_fuel
  packets (suc f) c =
      next (turn c)
        λ d. let go : Flow = packets f d in elim d.incoming_buffer [ [] ↦ returned d | b ∷ bs ↦ go ]

  -- Every turn that goes on has read a byte, as long as the slots add none.
  unfoldable pub process_incoming_data : Client → Flow
  unfolding hand_shake peer_id keep_alive packets
  process_incoming_data c = next (hand_shake (record c { invalidate_timeout = true })) λ c1.
      next (peer_id c1)
        λ c2. let k : Client = keep_alive c2 in packets (suc (length k.incoming_buffer)) k
