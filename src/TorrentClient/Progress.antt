-- ===== src/TorrentClient/Progress.antt =====
-- What a block that arrives and a piece that is verified lead to, src/torrentclient.cpp.
use uenclient.Common.{
  ℕ, zero, suc, ◌+◌, ◌/◌, ◌≤◌, ◌<◌, ◌≡◌, refl, ap, ap₂, ◌∙◌, Bool, true, false, ◌&&◌, ◌||◌, inl,
  inr, some, List, [], ◌∷◌, Bytes, length, set, get_or, get_elem?, map, ltb, ◌==◌, ==_iff,
  if◌then◌else◌, if-holds, Bool-cases, arith,
}
use uenclient.PeerWire.Client.{Slots}
use uenclient.PeerWire.Messages.{count_true}
use uenclient.TorrentClient.State.{
  set_state, downloading, endgame, is_seeding, remove_payloads, remove_piece, block_size,
  TorrentPiece, Peer, Order, write_block, verify_piece, Torrent,
}
use uenclient.TorrentClient.Receiving.{
  piece_verified, after_completion, update_progress, update_interest, has_interest, notify_peers,
}

-- The orders to the file manager are these.
record HasOrders (orders : List Order) (t : Torrent) : Type 0 where
  same : t.orders ≡ orders

abbrev pub all_set : List Bool → Bool
all_set [] = true
all_set (b ∷ bs) = b && all_set bs

-- What the file manager is asked when a block is stored.
abbrev pub orders_for : TorrentPiece → ℕ → Bytes → List Order
orders_for p begin bytes =
    write_block p.index begin bytes
    ∷ (if all_set (set p.completed_blocks (begin / block_size) true)
        then verify_piece p.index ∷ []
        else [])

has_interest-true :
    (k i j : ℕ) (pieces incomplete : List Bool)
    → i ≤ j
    → j < i + k
    → get_or pieces j false ≡ true
    → get_or incomplete j false ≡ true
    → has_interest k i pieces incomplete ≡ true
unfolding has_interest
has_interest-true zero i j pieces incomplete low high e f = absurd (omega arith)
has_interest-true (suc k) i j pieces incomplete low high e f = elim (Bool-cases (i == j)) [
  | inl at ↦
      let same : i ≡ j = (==_iff i j).0 at in
      ap₂ (λ (a b : Bool). (a && b) || has_interest k (suc i) pieces incomplete)
        (ap (λ (n : ℕ). get_or pieces n false) same ∙ e)
        (ap (λ (n : ℕ). get_or incomplete n false) same ∙ f)
  | inr other ↦
      ap (λ (b : Bool). (get_or pieces i false && get_or incomplete i false) || b)
        (has_interest-true k (suc i) j pieces incomplete (ground arith) (omega arith) e f)
      ∙ or_true (get_or pieces i false && get_or incomplete i false)
]
  where
    or_true : (b : Bool) → (b || true) ≡ true
    or_true true = refl
    or_true false = refl

get_elem?-map :
    (f : Peer → Peer) (ps : List Peer) (k : ℕ) (p : Peer)
    → get_elem? ps k ≡ some p
    → get_elem? (map f ps) k ≡ some (f p)
get_elem?-map f [] k p e = cc
get_elem?-map f (q ∷ qs) zero p e = cc
get_elem?-map f (q ∷ qs) (suc k) p e = get_elem?-map f qs k p e

get_or-set-false : (bs : List Bool) (i : ℕ) → get_or (set bs i false) i false ≡ false
get_or-set-false [] i = refl
get_or-set-false (b ∷ bs) zero = refl
get_or-set-false (b ∷ bs) (suc i) = get_or-set-false bs i

-- What is left alone when the state changes.
record IsKept (t u : Torrent) : Type 0 where
  peers_kept : u.peers ≡ t.peers
  incomplete_kept : u.incomplete_pieces ≡ t.incomplete_pieces

after_completion-IsKept : (emit : Slots) (t : Torrent) → IsKept t (after_completion emit t)
unfolding after_completion
after_completion-IsKept emit t =
    let incomplete : ℕ = count_true t.incomplete_pieces in
    let completed : ℕ = count_true t.completed_pieces in
    if-holds (IsKept t) (completed == t.piece_count)
      (λ a.
        if-holds (IsKept t) (is_seeding t.state)
          (λ b. record { peers_kept = refl; incomplete_kept = refl })
          λ b. record { peers_kept = refl; incomplete_kept = refl })
      λ a.
        let inner =
          if-holds (IsKept t) (completed == 1) {x = set_state downloading t}
            {y = if ltb incomplete 5 && ltb incomplete (length t.pending_pieces)
              then set_state endgame t
              else t}
            (λ b. record { peers_kept = refl; incomplete_kept = refl })
            λ b.
              if-holds (IsKept t) (ltb incomplete 5 && ltb incomplete (length t.pending_pieces))
                (λ c. record { peers_kept = refl; incomplete_kept = refl })
                λ c. record { peers_kept = refl; incomplete_kept = refl } in
        record { peers_kept = inner.peers_kept; incomplete_kept = inner.incomplete_kept }

-- The peers' interest is computed before the piece is taken out of the incomplete ones: a peer that
-- has the piece that was verified stays interesting, also where it has nothing else that is missing.
pub piece_verified-interesting :
    (emit : Slots) (i k : ℕ) (p : Peer) (t : Torrent)
    → i < t.piece_count
    → get_or t.incomplete_pieces i false ≡ true
    → get_elem? t.peers k ≡ some p
    → p.interesting ≡ true
    → get_or p.pieces i false ≡ true
    → (u : Torrent) × (piece_verified emit i true t ≡ some u)
      × (get_or u.incomplete_pieces i false ≡ false)
      × ((q : Peer) × (get_elem? u.peers k ≡ some q) × (q.interesting ≡ true))
unfolding piece_verified update_progress
piece_verified-interesting emit i k p t small missing at eager has =
    let v : Torrent = record t {
      payloads = remove_payloads i t.payloads;
      peers = map (update_interest t.piece_count t.incomplete_pieces) t.peers;
      pending_pieces = remove_piece i t.pending_pieces;
      completed_pieces = set t.completed_pieces i true;
      incomplete_pieces = set t.incomplete_pieces i false;
      connections = notify_peers emit i t.connections;
    } in
    let kept = after_completion-IsKept emit v in
    (
      update_progress (after_completion emit v),
      refl,
      ap (λ (b : List Bool). get_or b i false) kept.incomplete_kept
          ∙ get_or-set-false t.incomplete_pieces i,
      (
        update_interest t.piece_count t.incomplete_pieces p,
        ap (λ (ps : List Peer). get_elem? ps k) kept.peers_kept
            ∙ get_elem?-map (update_interest t.piece_count t.incomplete_pieces) t.peers k p at,
        rw eager (
            has_interest-true t.piece_count 0 i p.pieces t.incomplete_pieces (omega arith)
              (omega arith) has missing),
      ),
    )
