-- ===== src/PeerWire/Client.antt =====
-- The state of `PeerWireClient`, src/peerwireclient.h, and the parts of it that its methods share.
use uenclient.Common.{
  ℕ, suc, Bool, true, false, ◌&&◌, Option, none, List, [], ◌∷◌, Bytes, replicate, ◌==◌,
  if◌then◌else◌,
}

-- `TorrentBlock`.
pub record TorrentBlock : Type 0 where
  pub piece_index : ℕ
  pub offset : ℕ
  pub length_of : ℕ

-- `operator==`.
abbrev pub same_block : TorrentBlock → TorrentBlock → Bool
same_block a b =
    a.piece_index == b.piece_index && a.offset == b.offset && a.length_of == b.length_of

-- `BlockInfo`: a block to be sent, with the message that carries it.
pub record BlockInfo : Type 0 where
  pub piece_index : ℕ
  pub offset : ℕ
  pub length_of : ℕ
  pub block : Bytes

-- The signals of the class.
pub data Signal : Type 0 where
  info_hash_received : Bytes → Signal
  ready_to_transfer : Signal
  choked : Signal
  unchoked : Signal
  interested : Signal
  not_interested : Signal
  pieces_available : List Bool → Signal
  block_requested : ℕ → ℕ → ℕ → Signal
  block_received : ℕ → ℕ → Bytes → Signal
  bytes_received : ℕ → Signal

-- The four flags of `pwState` are fields; the length -1 is `none`. A timer is a number above 0, 0
-- stands for no timer, and `timers` are those that run. `aborted` is set by `abort()`.
pub record Client : Type 0 where
  pub incoming_buffer : Bytes
  pub outgoing_buffer : Bytes
  pub pending_blocks : List BlockInfo
  pub pending_block_sizes : ℕ
  pub incoming : List TorrentBlock
  pub choking_peer : Bool
  pub interested_in_peer : Bool
  pub choked_by_peer : Bool
  pub peer_is_interested : Bool
  pub received_hand_shake : Bool
  pub got_peer_id : Bool
  pub sent_hand_shake : Bool
  pub next_packet_length : Option ℕ
  pub upload_speed_data : List ℕ
  pub download_speed_data : List ℕ
  pub transfer_speed_timer : ℕ
  pub timeout_timer : ℕ
  pub pending_request_timer : ℕ
  pub keep_alive_timer : ℕ
  pub invalidate_timeout : Bool
  pub info_hash : Bytes
  pub peer_id_string : Bytes
  pub peer_pieces : List Bool
  pub timers : List ℕ
  pub last_timer : ℕ
  pub aborted : Bool

-- What the slots that are connected to a signal do to the client that emits it.
abbrev pub Slots : Type 0
Slots = Signal → Client → Client

abbrev pub remove_number : ℕ → List ℕ → List ℕ
remove_number n [] = []
remove_number n (m ∷ ms) = let rest = remove_number n ms in if m == n then rest else m ∷ rest

-- `killTimer`.
abbrev pub kill_timer : ℕ → Client → Client
kill_timer id c = record c { timers = remove_number id c.timers }

-- `startTimer` returns a new number: the next one, `suc c.last_timer`.
abbrev pub start_timer : Client → Client
start_timer c = record c { timers = suc c.last_timer ∷ c.timers; last_timer = suc c.last_timer }

-- `if (pendingRequestTimer) killTimer(pendingRequestTimer);`: the number is kept.
abbrev pub kill_pending_request_timer : Client → Client
kill_pending_request_timer c =
    if c.pending_request_timer == 0 then c else kill_timer c.pending_request_timer c

-- The same, followed by `pendingRequestTimer = startTimer(PendingRequestTimeout);`.
abbrev pub restart_pending_request_timer : Client → Client
restart_pending_request_timer c =
    let k : Client = kill_pending_request_timer c in
    let t : Client = start_timer k in record t { pending_request_timer = t.last_timer }

-- `abort()` of the socket.
abbrev pub abort : Client → Client
abort c = record c { aborted = true }

-- The constructor, with the transfer speed and timeout timers running.
unfoldable pub new_client : Bytes → Client
new_client peer_id = record {
  incoming_buffer = [];
  outgoing_buffer = [];
  pending_blocks = [];
  pending_block_sizes = 0;
  incoming = [];
  choking_peer = true;
  interested_in_peer = false;
  choked_by_peer = true;
  peer_is_interested = false;
  received_hand_shake = false;
  got_peer_id = false;
  sent_hand_shake = false;
  next_packet_length = none;
  upload_speed_data = replicate 8 0;
  download_speed_data = replicate 8 0;
  transfer_speed_timer = 1;
  timeout_timer = 2;
  pending_request_timer = 0;
  keep_alive_timer = 0;
  invalidate_timeout = false;
  info_hash = [];
  peer_id_string = peer_id;
  peer_pieces = [];
  timers = 2 ∷ 1 ∷ [];
  last_timer = 2;
  aborted = false;
}
