-- ===== src/PeerWire/Transfer.antt =====
-- How `PeerWireClient` of src/peerwireclient.cpp moves bytes to and from the socket, measures the
-- speed and answers its timers. The socket is a parameter: what it takes and gives at each call.
pub mod Stream
use uenclient.Common.{
  ℕ, zero, suc, ◌+◌, ◌-◌, ◌*◌, ◌/◌, ◌≤◌, Bool, true, false, not, ◌&&◌, ◌||◌, Option, none, some,
  List, [], ◌∷◌, ◌++◌, Bytes, ℤ, pos, negsuc, length, take, drop, set, get_or, is_empty, ltb, min,
  ◌==◌, if◌then◌else◌,
}
use uenclient.PeerWire.Client.{BlockInfo, Client, Slots, info_hash_received, bytes_received, abort}
use uenclient.PeerWire.Messages.{send_keep_alive}
use uenclient.PeerWire.Incoming.{Flow, returned, process_incoming_data}

-- The state after `writeToSocket`, its result, and the bytes that the socket has taken.
pub record Written : Type 0 where
  pub after : Client
  pub result : ℤ
  pub wire : Bytes

-- `if (outgoingBuffer.isEmpty() && !pendingBlocks.isEmpty())`: the next block is queued.
abbrev pub refill : List BlockInfo → Client → Client
refill [] c = c
refill (b ∷ bs) c =
    if is_empty c.outgoing_buffer
    then record c {
      pending_blocks = bs;
      pending_block_sizes = c.pending_block_sizes - b.length_of;
      outgoing_buffer = c.outgoing_buffer ++ b.block;
    }
    else c

abbrev pub add_first : ℕ → List ℕ → List ℕ
add_first n [] = []
add_first n (x ∷ xs) = (x + n) ∷ xs

-- `socket.write` at the turn with that number: the number of bytes taken, or `none` for -1.
module _ (socket_write : ℕ → Bytes → Option ℕ) where
  -- The turns of the loop of `writeToSocket`, with `total` for `totalWritten`. Each writes a byte at
  -- least, so that `bytes` turns suffice.
  unfoldable pub write_turns : ℕ → ℕ → ℕ → Bytes → Client → Option Written
  write_turns zero bytes total wire c = none
  write_turns (suc f) bytes total wire c =
      let c1 : Client = refill c.pending_blocks c in
      let offered : Bytes =
        take (min (bytes - total) (length c1.outgoing_buffer)) c1.outgoing_buffer in
      elim (socket_write f offered) [
        | none ↦ some (record {
          after = c1;
          result = if total == 0 then negsuc 0 else pos total;
          wire = wire;
        })
        | some n ↦
            let c2 : Client = record c1 {
              upload_speed_data = add_first n c1.upload_speed_data;
              outgoing_buffer = drop n c1.outgoing_buffer;
            } in
            let done : Written = record {
              after = c2;
              result = pos (total + n);
              wire = wire ++ take n offered;
            } in
            let more = write_turns f bytes (total + n) (wire ++ take n offered) c2 in
            if n == 0
            then some (record { after = c1; result = pos total; wire = wire })
            else if ltb (total + n) bytes
                && (not (is_empty c2.outgoing_buffer) || not (is_empty c2.pending_blocks))
            then more
            else some done
      ]

  unfoldable pub write_to_socket : ℕ → Client → Option Written
  unfolding write_turns
  write_to_socket bytes c = write_turns (suc bytes) bytes 0 [] c

-- `socket.read(buffer, max)` at the turn with that number: the bytes read, none for an error too.
module _ (socket_read : ℕ → ℕ → Bytes) where
  unfoldable pub read_turns : ℕ → ℕ → ℕ → Client → Client × ℕ
  read_turns zero bytes total c = (c, total)
  read_turns (suc f) bytes total c =
      let got : Bytes = socket_read f (min 1024 (bytes - total)) in
      let c1 : Client = record c { incoming_buffer = c.incoming_buffer ++ got } in
      let more = read_turns f bytes (total + length got) c1 in
      if is_empty got
      then (c, total)
      else if ltb (total + length got) bytes
      then more
      else (c1, total + length got)

  -- `readFromSocket`: what it returns is the second component.
  unfoldable pub read_from_socket : Slots → ℕ → Client → Flow × ℕ
  unfolding read_turns process_incoming_data
  read_from_socket emit bytes c =
      let (d, total) = read_turns (suc bytes) bytes 0 c in
      if ltb 0 total
      then (
        process_incoming_data emit (
            emit (bytes_received total)
              (record d { download_speed_data = add_first total d.download_speed_data })),
        total,
      )
      else (returned d, total)

abbrev pub sum : List ℕ → ℕ
sum [] = 0
sum (x ∷ xs) = x + sum xs

-- The average over the eight records of two seconds each.
unfoldable pub download_speed : Client → ℕ
download_speed c = sum c.download_speed_data / (8 * 2)

unfoldable pub upload_speed : Client → ℕ
upload_speed c = sum c.upload_speed_data / (8 * 2)

-- `for (i = 6; i >= 0; --i) data[i + 1] = data[i]; data[0] = 0;`, from `k` entries to be moved on.
unfoldable pub shift_records : ℕ → List ℕ → List ℕ
shift_records zero records = set records 0 0
shift_records (suc k) records = shift_records k (set records (suc k) (get_or records k 0))

unfoldable pub timer_event : Slots → ℕ → Client → Client
unfolding shift_records
timer_event emit id c =
    if id == c.transfer_speed_timer
    then record c {
      upload_speed_data = shift_records 7 c.upload_speed_data;
      download_speed_data = shift_records 7 c.download_speed_data;
    }
    else if id == c.timeout_timer
    then if c.invalidate_timeout
      then record c { invalidate_timeout = false }
      else emit (info_hash_received []) (abort c)
    else if id == c.pending_request_timer
    then abort c
    else if id == c.keep_alive_timer
    then send_keep_alive emit c
    else c

-- `canTransferMore`, with the bytes that wait in the socket and in the base class.
abbrev pub can_transfer_more : ℕ → ℕ → Client → Bool
can_transfer_more in_socket in_base c =
    ltb 0 (length c.incoming_buffer + in_base)
    || ltb 0 in_socket
    || not (is_empty c.outgoing_buffer)
    || not (is_empty c.pending_blocks)
