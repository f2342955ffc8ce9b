-- ===== src/PeerWire/Messages.antt =====
-- The messages that `PeerWireClient` of src/peerwireclient.cpp sends.
use uenclient.Common.{
  ℕ, suc, ◌+◌, ◌-◌, ◌*◌, ◌/◌, ◌%◌, ◌^◌, Bool, true, false, List, [], ◌∷◌, ◌++◌, Bytes, length,
  replicate, take, set, get_or, codes, ltb, ◌==◌, if◌then◌else◌,
}
use uenclient.PeerWire.Words.{to_network_data}
use uenclient.PeerWire.Client.{
  TorrentBlock, same_block, BlockInfo, Client, Slots, ready_to_transfer, start_timer, kill_timer,
  kill_pending_request_timer, restart_pending_request_timer,
}

-- "BitTorrent protocol", behind its size.
abbrev pub protocol_id : Bytes
protocol_id = codes "BitTorrent protocol"

abbrev pub remove_all : TorrentBlock → List TorrentBlock → List TorrentBlock
remove_all b [] = []
remove_all b (x ∷ xs) = let rest = remove_all b xs in if same_block x b then rest else x ∷ rest

-- `bitField.count(true)`.
abbrev pub count_true : List Bool → ℕ
count_true [] = 0
count_true (true ∷ bs) = suc (count_true bs)
count_true (false ∷ bs) = count_true bs

-- The loop of `sendPieceList` from bit `i` on. The bit that is written is still clear, so that `|`
-- adds it.
unfoldable pub pack_bits : ℕ → List Bool → Bytes → Bytes
pack_bits i [] bits = bits
pack_bits i (b ∷ bs) bits =
    pack_bits (i + 1) bs
      (if b then set bits (i / 8) (get_or bits (i / 8) 0 + 2 ^ (7 - i % 8)) else bits)

-- The message of a block: its length, its type, where it stands, and its bytes.
unfoldable pub block_message : ℕ → ℕ → Bytes → Bytes
unfolding to_network_data
block_message piece offset bytes =
    to_network_data (9 + length bytes)
    ++ (7 ∷ (to_network_data piece ++ (to_network_data offset ++ bytes)))

module _ (emit : Slots) where
  -- `writeData`.
  unfoldable pub write : Bytes → Client → Client
  write bytes c = emit ready_to_transfer (record c { outgoing_buffer = c.outgoing_buffer ++ bytes })

  unfoldable pub send_hand_shake : Client → Client
  unfolding write
  send_hand_shake c =
      let s : Client = record c { sent_hand_shake = true } in
      let k : Client = if s.timeout_timer == 0 then s else kill_timer s.timeout_timer s in
      let t : Client = start_timer k in
      let c1 : Client = write (19 ∷ []) (record t { timeout_timer = t.last_timer }) in
      let c2 : Client = write protocol_id c1 in
      let c3 : Client = write (replicate 8 0) c2 in
      let c4 : Client = write c3.info_hash c3 in write c4.peer_id_string c4

  -- `if (!sentHandShake) sendHandShake();`.
  unfoldable pub ensure_hand_shake : Client → Client
  unfolding send_hand_shake
  ensure_hand_shake c = if c.sent_hand_shake then c else send_hand_shake c

  -- `peerPieces.resize` keeps the bits that are there and adds zeros.
  unfoldable pub initialize : Bytes → ℕ → Client → Client
  unfolding ensure_hand_shake
  initialize hash piece_count c = ensure_hand_shake (record c {
    info_hash = hash;
    peer_pieces =
        take piece_count c.peer_pieces ++ replicate (piece_count - length c.peer_pieces) false;
  })

  unfoldable pub choke_peer : Client → Client
  unfolding write
  choke_peer c =
      let w : Client = write (0 ∷ 0 ∷ 0 ∷ 1 ∷ 0 ∷ []) c in
      record w { choking_peer = true; pending_blocks = []; pending_block_sizes = 0 }

  unfoldable pub unchoke_peer : Client → Client
  unfolding write
  unchoke_peer c =
      let w : Client = write (0 ∷ 0 ∷ 0 ∷ 1 ∷ 1 ∷ []) c in
      kill_pending_request_timer (record w { choking_peer = false })

  unfoldable pub send_keep_alive : Client → Client
  unfolding write
  send_keep_alive c = write (0 ∷ 0 ∷ 0 ∷ 0 ∷ []) c

  unfoldable pub send_interested : Client → Client
  unfolding write
  send_interested c =
      let w : Client = write (0 ∷ 0 ∷ 0 ∷ 1 ∷ 2 ∷ []) c in
      restart_pending_request_timer (record w { interested_in_peer = true })

  unfoldable pub send_not_interested : Client → Client
  unfolding write
  send_not_interested c =
      let w : Client = write (0 ∷ 0 ∷ 0 ∷ 1 ∷ 3 ∷ []) c in record w { interested_in_peer = false }

  unfoldable pub send_piece_notification : ℕ → Client → Client
  unfolding ensure_hand_shake to_network_data
  send_piece_notification piece c =
      write (0 ∷ 0 ∷ 0 ∷ 5 ∷ 4 ∷ to_network_data piece) (ensure_hand_shake c)

  unfoldable pub send_piece_list : List Bool → Client → Client
  unfolding ensure_hand_shake pack_bits to_network_data
  send_piece_list bit_field c =
      let h : Client = ensure_hand_shake c in
      let bits : Bytes = pack_bits 0 bit_field (replicate ((length bit_field + 7) / 8) 0) in
      let sent : Client = write bits (write (to_network_data (length bits + 1) ++ (5 ∷ [])) h) in
      if count_true bit_field == 0 then h else sent

  unfoldable pub request_block : ℕ → ℕ → ℕ → Client → Client
  unfolding write to_network_data
  request_block piece offset len c =
      let w1 : Client = write (to_network_data 13 ++ (6 ∷ [])) c in
      let w2 : Client =
        write (to_network_data piece ++ (to_network_data offset ++ to_network_data len)) w1 in
      restart_pending_request_timer (record w2 {
        incoming =
            w2.incoming ++ (record { piece_index = piece; offset = offset; length_of = len } ∷ []);
      })

  unfoldable pub cancel_request : ℕ → ℕ → ℕ → Client → Client
  unfolding write to_network_data
  cancel_request piece offset len c =
      let w1 : Client = write (to_network_data 13 ++ (8 ∷ [])) c in
      let w2 : Client =
        write (to_network_data piece ++ (to_network_data offset ++ to_network_data len)) w1 in
      record w2 {
        incoming =
            remove_all (record { piece_index = piece; offset = offset; length_of = len })
              w2.incoming;
      }

  unfoldable pub send_block : ℕ → ℕ → Bytes → Client → Client
  unfolding block_message choke_peer unchoke_peer
  send_block piece offset bytes c =
      let block : Bytes = block_message piece offset bytes in
      let info : BlockInfo = record {
        piece_index = piece;
        offset = offset;
        length_of = length bytes;
        block = block;
      } in
      let q : Client = record c {
        pending_blocks = c.pending_blocks ++ (info ∷ []);
        pending_block_sizes = c.pending_block_sizes + length block;
      } in
      if ltb (32 * 16384) q.pending_block_sizes
      then unchoke_peer (choke_peer q)
      else emit ready_to_transfer q
