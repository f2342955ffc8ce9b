-- ===== src/TorrentClient/Blocks.antt =====
-- The blocks of a piece, src/torrentclient.cpp: what is left of it, and what is requested next.
pub mod Requests
use uenclient.Common.{
  ℕ, zero, suc, ◌+◌, ◌-◌, ◌*◌, ◌/◌, ◌%◌, Bool, true, false, not, ◌&&◌, ◌||◌, Option, none, some,
  List, [], ◌∷◌, ◌++◌, length, take, set, get_or, is_empty, replicate, min, ltb, ◌==◌,
  if◌then◌else◌,
}
use uenclient.PeerWire.Client.{Client, Slots}
use uenclient.PeerWire.Messages.{request_block, count_true}
use uenclient.TorrentClient.State.{
  Phase, is_warming_up, is_multi, block_size, max_blocks_in_progress, max_blocks_in_multi_mode,
  TorrentPiece, Connection, Torrent, lookup_piece, update_piece, pieces_of, call_client,
  lookup_connection, call_scheduler,
}

-- The loop of `blocksLeftForPiece`.
abbrev pub count_false : List Bool → ℕ
count_false [] = 0
count_false (b ∷ bs) = (if b then 0 else 1) + count_false bs

abbrev pub blocks_left_for_piece : TorrentPiece → ℕ
blocks_left_for_piece p = count_false p.completed_blocks

-- The blocks, from block `i` on, that are neither completed nor requested.
unfoldable pub free_blocks : ℕ → List Bool → List Bool → List ℕ
free_blocks i [] requested = []
free_blocks i (c ∷ cs) [] = let rest = free_blocks (suc i) cs [] in if not c then i ∷ rest else rest
free_blocks i (c ∷ cs) (r ∷ rs) =
    let rest = free_blocks (suc i) cs rs in if not c && not r then i ∷ rest else rest

-- The blocks, from block `i` on, that are not completed.
unfoldable pub open_blocks : ℕ → List Bool → List ℕ
open_blocks i [] = []
open_blocks i (c ∷ cs) = let rest = open_blocks (suc i) cs in if not c then i ∷ rest else rest

-- `bits`, before it is shuffled.
unfoldable pub candidates : Phase → TorrentPiece → List ℕ
candidates state p =
    let free : List ℕ = free_blocks 0 p.completed_blocks p.requested_blocks in
    if is_empty free then if is_multi state then open_blocks 0 p.completed_blocks else [] else free

-- The numbers that `qrand` gives, one behind the other.
module _ (qrand : ℕ → ℕ) where
  -- The loop that swaps two of the blocks at random, `k` times from draw `d` on.
  unfoldable pub shuffle : ℕ → ℕ → List ℕ → List ℕ
  shuffle zero d bits = bits
  shuffle (suc k) d bits =
      let a : ℕ = qrand d % length bits in
      let b : ℕ = qrand (d + 1) % length bits in
      shuffle k (d + 2) (set (set bits a (get_or bits b 0)) b (get_or bits a 0))

  -- The blocks to request, in order, and the draws made.
  unfoldable pub requested_next : Phase → ℕ → TorrentPiece → List ℕ × ℕ
  requested_next state d p =
      let bits : List ℕ = candidates state p in
      if is_multi state then (shuffle (length bits) d bits, d + 2 * length bits) else (bits, d)

-- The size of a block: the last one may be shorter.
abbrev pub size_of_block : TorrentPiece → ℕ → ℕ
size_of_block p bit =
    if not (p.length_of % block_size == 0) && bit == length p.completed_blocks - 1
    then p.length_of % block_size
    else block_size

module _ (emit : Slots) where
  -- The loop over the blocks to request.
  unfoldable pub request_each : TorrentPiece → List ℕ → Client → Client
  request_each p [] c = c
  request_each p (bit ∷ bits) c =
      request_each p bits (request_block emit p.index (bit * block_size) (size_of_block p bit) c)

abbrev pub mark_all : List ℕ → List Bool → List Bool
mark_all [] bits = bits
mark_all (i ∷ is) bits = mark_all is (set bits i true)

-- The client, the piece and the number of draws after `requestBlocks`, and what it returns.
pub record Requested : Type 0 where
  pub client : Client
  pub piece : TorrentPiece
  pub draws : ℕ
  pub result : ℕ

module _ (emit : Slots) (qrand : ℕ → ℕ) where
  unfoldable pub request_blocks : Phase → ℕ → ℕ → TorrentPiece → Client → Requested
  request_blocks state d max_blocks p c =
      let (bits, d') = requested_next qrand state d p in
      let chosen : List ℕ = take (min max_blocks (length bits)) bits in
      if is_empty (candidates state p)
      then record { client = c; piece = p; draws = d; result = 0 }
      else record {
        client = request_each emit p chosen c;
        piece = record p { requested_blocks = mark_all chosen p.requested_blocks };
        draws = d';
        result = min max_blocks (length bits);
      }

-- The pieces of a client's payloads that it may request blocks of.
abbrev pub wanted_pieces : Phase → List TorrentPiece → List ℕ → List ℕ
wanted_pieces state pending [] = []
wanted_pieces state pending (i ∷ is) =
    let rest = wanted_pieces state pending is in
    elim (lookup_piece i pending) [
      | none ↦ rest
      | some p ↦ if p.in_progress || is_multi state then i ∷ rest else rest
    ]

abbrev pub max_in_progress : Phase → ℕ
max_in_progress state = if is_multi state then max_blocks_in_multi_mode else max_blocks_in_progress

module _ (emit : Slots) (qrand : ℕ → ℕ) where
  -- One call of `requestBlocks` for a client with `num` blocks in progress; the number after it.
  -- Where `num` is above the quota, `requestBlocks` is asked for a negative number of blocks of a
  -- piece, requests none and returns that number.
  unfoldable pub request_from : ℕ → ℕ → ℕ → Torrent → Torrent × ℕ
  request_from n i num t =
      let quota : ℕ = max_in_progress t.state in
      elim (lookup_connection n t.connections) [
        | none ↦ (t, num)
        | some k ↦ elim (lookup_piece i t.pending_pieces) [
          | none ↦ (t, num)
          | some p ↦
              let r : Requested =
                request_blocks emit qrand t.state t.draws (quota - num) p k.client in
              (
                record t {
                  connections = call_client n (λ c. r.client) t.connections;
                  pending_pieces = update_piece i (λ q. r.piece) t.pending_pieces;
                  draws = r.draws;
                },
                if ltb quota num && not (is_empty (candidates t.state p))
                    then quota
                    else num + r.result,
              )
        ]
      ]

  -- The loop over the pieces in progress.
  unfoldable pub request_from_all : ℕ → List ℕ → ℕ → Torrent → Torrent × ℕ
  unfolding request_from
  request_from_all n [] num t = (t, num)
  request_from_all n (i ∷ is) num t =
      let (t', num') = request_from n i num t in
      let rest = request_from_all n is num' t' in
      if num' == max_in_progress t.state then (t', num') else rest

  unfoldable pub request_more : ℕ → Torrent → Torrent
  unfolding request_from_all
  request_more n t = elim (lookup_connection n t.connections) [
    | none ↦ t
    | some k ↦
        let pieces : List ℕ = wanted_pieces t.state t.pending_pieces (pieces_of n t.payloads) in
        let num : ℕ = length k.client.incoming in
        let quota : ℕ = max_in_progress t.state in
        let (t', num') = request_from_all n pieces num t in
        if is_empty pieces && ltb 0 (count_true t.incomplete_pieces)
        then call_scheduler t
        else if num == quota
        then t
        else if ltb num' quota && not (is_warming_up t.state)
        then call_scheduler t'
        else t'
  ]
