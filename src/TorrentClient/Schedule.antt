-- ===== src/TorrentClient/Schedule.antt =====
-- `scheduleDownloads` of src/torrentclient.cpp: what each client downloads next.
use uenclient.Common.{
  ℕ, zero, suc, ◌+◌, ◌/◌, ◌%◌, Bool, true, false, not, ◌&&◌, ◌||◌, Option, none, some, List, [],
  ◌∷◌, ◌++◌, length, set, get_or, replicate, ltb, leb, ◌==◌, if◌then◌else◌,
}
use uenclient.PeerWire.Client.{Client, Slots}
use uenclient.PeerWire.Messages.{count_true}
use uenclient.PeerWire.Transfer.{upload_speed}
use uenclient.TorrentClient.State.{
  Phase, idle, paused, stopping, is_warming_up, is_endgame, is_multi, block_size, TorrentPiece,
  Connection, Torrent, lookup_piece, update_piece, insert_piece, pieces_of, lookup_connection,
}
use uenclient.TorrentClient.Blocks.{count_false, max_in_progress, request_more}

-- The first loop: the pieces of the payloads that are in progress, …
abbrev pub current_pieces : List TorrentPiece → List ℕ → List ℕ
current_pieces pending [] = []
current_pieces pending (i ∷ is) =
    let rest = current_pieces pending is in
    elim (lookup_piece i pending) [
      | none ↦ rest
      | some p ↦ if p.in_progress then i ∷ rest else rest
    ]

-- … whether some are not, …
abbrev pub some_idle : List TorrentPiece → List ℕ → Bool
some_idle pending [] = false
some_idle pending (i ∷ is) = elim (lookup_piece i pending) [
  | none ↦ some_idle pending is
  | some p ↦ not p.in_progress || some_idle pending is
]

-- … and the last one.
abbrev pub last_of : List ℕ → Option ℕ
last_of [] = none
last_of (i ∷ []) = some i
last_of (i ∷ j ∷ is) = last_of (j ∷ is)

abbrev pub first_of : List ℕ → Option ℕ
first_of [] = none
first_of (i ∷ is) = some i

-- `&` of bit arrays: a missing bit is clear, and the result is as long as the longer one.
abbrev pub and_bits : List Bool → List Bool → List Bool
and_bits [] ds = replicate (length ds) false
and_bits (c ∷ cs) [] = replicate (length (c ∷ cs)) false
and_bits (c ∷ cs) (d ∷ ds) = (c && d) ∷ and_bits cs ds

abbrev pub clear_bits : List ℕ → List Bool → List Bool
clear_bits [] bits = bits
clear_bits (i ∷ is) bits = clear_bits is (set bits i false)

abbrev pub clear_in_progress : List TorrentPiece → List Bool → List Bool
clear_in_progress [] bits = bits
clear_in_progress (p ∷ ps) bits =
    clear_in_progress ps (if p.in_progress then set bits p.index false else bits)

-- The pieces that a client could begin with: `incompletePiecesAvailableToClient`.
unfoldable pub available_to : Client → List ℕ → Torrent → List Bool
available_to c current t =
    let mine : List Bool =
      if (is_endgame t.state && ltb (upload_speed c) 1024) || not (is_warming_up t.state)
      then clear_in_progress t.pending_pieces t.incomplete_pieces
      else t.incomplete_pieces in
    clear_bits current (and_bits mine c.peer_pieces)

-- The first pending piece that can be taken up: `partialPieces` has one element at most.
abbrev pub partial_piece : Phase → List Bool → List TorrentPiece → Option ℕ
partial_piece state bits [] = none
partial_piece state bits (p ∷ ps) =
    let rest = partial_piece state bits ps in
    if get_or bits p.index false && (not p.in_progress || is_multi state)
    then some p.index
    else rest

-- How many of the clients have piece `i`: `occurrences[i]`.
abbrev pub occurrences : ℕ → List Connection → ℕ
occurrences i [] = 0
occurrences i (c ∷ cs) = (if get_or c.client.peer_pieces i false then 1 else 0) + occurrences i cs

-- The loop that lists the most common pieces, or the rarest ones: `k` pieces from `i` on, with the
-- best number of occurrences so far and the pieces that have it.
unfoldable pub best_pieces : Bool → List Bool → List Connection → ℕ → ℕ → ℕ → List ℕ → List ℕ
best_pieces common bits cs zero i best ready = ready
best_pieces common bits cs (suc k) i best ready =
    let n : ℕ = occurrences i cs in
    let fits : Bool = if common then leb best n else leb n best in
    let taken : Bool = fits && get_or bits i false in
    best_pieces common bits cs k (suc i) (if taken then n else best)
      (if taken then (if n == best then ready else []) ++ (i ∷ []) else ready)

-- The indices of the bits that are set, from `i` on.
unfoldable pub set_bits : ℕ → List Bool → List ℕ
set_bits i [] = []
set_bits i (b ∷ bs) = let rest = set_bits (suc i) bs in if b then i ∷ rest else rest

abbrev pub new_piece : ℕ → ℕ → TorrentPiece
new_piece index len =
    let blocks : ℕ = len / block_size + (if len % block_size == 0 then 0 else 1) in
    record {
      index = index;
      length_of = len;
      completed_blocks = replicate blocks false;
      requested_blocks = replicate blocks false;
      in_progress = false;
    }

abbrev pub start_piece : TorrentPiece → TorrentPiece
start_piece p = record p { in_progress = true }

-- The index of the piece in a place of the list.
abbrev pub nth_index : List TorrentPiece → ℕ → ℕ
nth_index [] k = 0
nth_index (p ∷ ps) zero = p.index
nth_index (p ∷ ps) (suc k) = nth_index ps k

-- How many blocks of a piece are missing.
abbrev pub missing_of : ℕ → List TorrentPiece → ℕ
missing_of i pending = elim (lookup_piece i pending) [
  | none ↦ 0
  | some p ↦ count_false p.completed_blocks
]

-- A payload for client `n`: `inProgress` is set, and `payloads.insert`.
abbrev pub assign : ℕ → ℕ → Torrent → Torrent
assign n i t = record t {
  pending_pieces = update_piece i start_piece t.pending_pieces;
  payloads = (n, i) ∷ t.payloads;
}

module _ (emit : Slots) (qrand : ℕ → ℕ) (piece_length_at : ℕ → ℕ) where
  abbrev pub pick : ℕ → List ℕ → ℕ
  pick d xs = get_or xs (qrand d % length xs) 0

  -- The index of a new piece, and the draws after it.
  unfoldable pub pick_piece : List Bool → Torrent → ℕ × ℕ
  unfolding best_pieces set_bits
  pick_piece bits t =
      let by_count : Bool = is_warming_up t.state || qrand t.draws / 4 % 2 == 0 in
      let d : ℕ = if is_warming_up t.state then t.draws else t.draws + 1 in
      let best : ℕ = if is_warming_up t.state then 0 else 99999 in
      (
        pick d (
            if by_count
            then best_pieces (is_warming_up t.state) bits t.connections t.piece_count 0 best []
            else set_bits 0 bits),
        d + 1,
      )

  -- `if (!piece) …`: a partial piece, or a new one. No value: there is none for this client.
  unfoldable pub find_piece : ℕ → Client → List ℕ → Torrent → Option Torrent
  unfolding pick_piece available_to
  find_piece n c current t =
      let bits : List Bool = available_to c current t in
      let (i, d) = pick_piece bits t in
      let fresh : Torrent = record t {
        draws = d;
        pending_pieces = insert_piece (new_piece i (piece_length_at i)) t.pending_pieces;
      } in
      if count_true bits == 0 then none else elim (partial_piece t.state bits t.pending_pieces) [
        | some j ↦ some (assign n j (record t { draws = t.draws + 1 }))
        | none ↦ some (assign n i fresh)
      ]

  -- In the warmup state a client takes its last payload, or a random pending piece, which becomes
  -- its payload; the result is the piece and the state with it.
  unfoldable pub warm_up : ℕ → Torrent → ℕ × Torrent
  warm_up n t =
      let i : ℕ = nth_index t.pending_pieces (qrand t.draws % length t.pending_pieces) in
      elim (first_of (pieces_of n t.payloads)) [
        | some j ↦ (j, t)
        | none ↦ (i, assign n i (record t { draws = t.draws + 1 }))
      ]

  -- `schedulePieceForClient`.
  unfoldable pub schedule_piece_for_client : ℕ → Torrent → Torrent
  unfolding find_piece warm_up request_more
  schedule_piece_for_client n t = elim (lookup_connection n t.connections) [
    | none ↦ t
    | some k ↦
        let mine : List ℕ = pieces_of n t.payloads in
        let busy : ℕ = length k.client.incoming in
        let current : List ℕ = current_pieces t.pending_pieces mine in
        let keeps_last : Bool = some_idle t.pending_pieces mine && busy == 0 in
        let (i, warm) = warm_up n t in
        let found : Torrent = elim (find_piece n k.client current t) [
          | none ↦ t
          | some u ↦ request_more emit qrand n u
        ] in
        if not k.connected
        then t
        else if k.client.choked_by_peer
        then t
        else if leb (max_in_progress t.state) busy
        then t
        else if is_warming_up t.state && leb 4 (length t.pending_pieces)
        then if missing_of i warm.pending_pieces == busy
          then warm
          else request_more emit qrand n warm
        else if keeps_last
        then request_more emit qrand n t
        else found
  ]

  abbrev pub schedule_each : List Connection → Torrent → Torrent
  schedule_each [] t = t
  schedule_each (k ∷ ks) t = schedule_each ks (schedule_piece_for_client k.number t)

  -- `scheduleDownloads`.
  unfoldable pub schedule_downloads : Torrent → Torrent
  unfolding schedule_piece_for_client
  schedule_downloads t =
      let t' : Torrent = record t { scheduler_called = false } in
      let all : Torrent = schedule_each t.connections t' in
      elim t.state [ stopping ↦ t' | paused ↦ t' | idle ↦ t' | _ ↦ all ]
