-- ===== src/TorrentClient/Invariant/Steps.antt =====
-- Every operation of `TorrentClient`, src/torrentclient.cpp, keeps its invariant.
use uenclient.Common.{
  ℕ, zero, suc, ◌-◌, ◌/◌, ◌≡◌, refl, ap, ◌∙◌, Bool, true, false, not, ◌&&◌, inl, inr, Option, none,
  some, Option-cases, List, [], ◌∷◌, Bytes, length, set, get_elem?, map, is_empty, min, take, ltb,
  ◌==◌, Bool-cases, All,
}
use uenclient.PeerWire.Client.{TorrentBlock, Client, Slots}
use uenclient.PeerWire.Messages.{count_true}
use uenclient.TorrentClient.State.{
  Phase, downloading, is_downloading, is_endgame, is_seeding, is_multi, is_warming_up, block_size,
  TorrentPiece, Torrent, lookup_piece, update_piece, remove_piece, remove_payloads,
  remove_client_payloads, pieces_of, lookup_connection, set_state,
}
use uenclient.TorrentClient.Blocks.{
  candidates, requested_next, request_blocks, request_from, request_from_all, request_more,
  wanted_pieces, max_in_progress, blocks_left_for_piece,
}
use uenclient.TorrentClient.Blocks.Requests.{IsWhole}
use uenclient.TorrentClient.Receiving.{
  cancel_others, note_download, put_block, ask_verification, store_block, block_received,
  complete_block, piece_verified, clear_piece, after_completion, update_progress, peer_choked,
  remove_client, release_piece, release_all, update_interest, notify_peers,
}
use uenclient.TorrentClient.Invariant.{IsConsistent, IsLive}
use uenclient.TorrentClient.Invariant.Pieces.{
  IsMild, update_piece-IsLive, update_piece-IsWhole, remove_piece-IsLive, remove_piece-IsWhole,
  live-remove_payloads, live-remove_client_payloads, complete_block-IsMild, clear_piece-IsMild,
  release_piece-IsMild, marked-IsMild, same-IsMild, lookup_piece-some,
}

-- A mild change of a pending piece.
update_piece-IsConsistent :
    (i : ℕ) (f : TorrentPiece → TorrentPiece) (t : Torrent)
    → IsMild i f
    → IsConsistent t
    → IsConsistent (record t { pending_pieces = update_piece i f t.pending_pieces })
update_piece-IsConsistent i f t m h = record {
  live = update_piece-IsLive i f t.pending_pieces t.payloads m h.live;
  whole = update_piece-IsWhole i f t.pending_pieces m h.whole;
  complement = h.complement;
}

module _ (emit : Slots) (qrand : ℕ → ℕ) where
  request_blocks-IsMild :
      (state : Phase) (d k i : ℕ) (p : TorrentPiece) (c : Client)
      → p.index ≡ i
      → IsWhole p
      → IsMild i (λ q. (request_blocks emit qrand state d k p c).piece)
  unfolding request_blocks
  request_blocks-IsMild state d k i p c at h = elim (Bool-cases (is_empty (candidates state p))) [
    | inl e ↦ rw e (same-IsMild i p at h)
    | inr e ↦ rw e (
        let bits : List ℕ = (requested_next qrand state d p).0 in
        marked-IsMild i (take (min k (length bits)) bits) p at h)
  ]

  request_from-IsConsistent :
      (n i num : ℕ) (t : Torrent)
      → IsConsistent t
      → IsConsistent (request_from emit qrand n i num t).0
  unfolding request_from
  request_from-IsConsistent n i num t h = elim (Option-cases (lookup_connection n t.connections)) [
    | inl e ↦ rw (e, request_from) h
    | inr (k, e) ↦ elim (Option-cases (lookup_piece i t.pending_pieces)) [
      | inl f ↦ rw (e, request_from) (rw (f, request_from) h)
      | inr (p, f) ↦
          let (at, whole, _) = lookup_piece-some i t.pending_pieces p f h.whole in
          let room : ℕ = max_in_progress t.state - num in
          let m = request_blocks-IsMild t.state t.draws room i p k.client at whole in
          rw (e, request_from)
            (rw (f, request_from)
              (record {
                live = update_piece-IsLive i _ t.pending_pieces t.payloads m h.live;
                whole = update_piece-IsWhole i _ t.pending_pieces m h.whole;
                complement = h.complement;
              }))
    ]
  ]

  request_from_all-IsConsistent :
      (n : ℕ) (is : List ℕ) (num : ℕ) (t : Torrent)
      → IsConsistent t
      → IsConsistent (request_from_all emit qrand n is num t).0
  unfolding request_from_all
  request_from_all-IsConsistent n [] num t h = h
  request_from_all-IsConsistent n (i ∷ is) num t h =
      let next = request_from-IsConsistent n i num t h in
      elim (Bool-cases ((request_from emit qrand n i num t).1 == max_in_progress t.state)) [
        | inl e ↦ rw e next
        | inr e ↦ rw e (request_from_all-IsConsistent n is _ _ next)
      ]

  scheduled-IsConsistent :
      (t : Torrent) → IsConsistent t → IsConsistent (record t { scheduler_called = true })
  scheduled-IsConsistent t h = record { live = h.live; whole = h.whole; complement = h.complement }

  pub request_more-IsConsistent :
      (n : ℕ) (t : Torrent) → IsConsistent t → IsConsistent (request_more emit qrand n t)
  unfolding request_more
  request_more-IsConsistent n t h = elim (Option-cases (lookup_connection n t.connections)) [
    | inl e ↦ rw (e, request_more) h
    | inr (k, e) ↦
        let pieces : List ℕ = wanted_pieces t.state t.pending_pieces (pieces_of n t.payloads) in
        let num : ℕ = length k.client.incoming in
        let all = request_from_all-IsConsistent n pieces num t h in
        let num' : ℕ = (request_from_all emit qrand n pieces num t).1 in
        elim (Bool-cases (is_empty pieces && ltb 0 (count_true t.incomplete_pieces))) [
          | inl a ↦ rw (e, request_more) (rw a (scheduled-IsConsistent t h))
          | inr a ↦ elim (Bool-cases (num == max_in_progress t.state)) [
            | inl b ↦ rw (e, request_more) (rw a (rw b h))
            | inr b ↦
                elim (Bool-cases
                  (ltb num' (max_in_progress t.state) && not (is_warming_up t.state))) [
                    | inl c ↦
                        rw (e, request_more) (rw a (rw b (rw c (scheduled-IsConsistent _ all))))
                    | inr c ↦ rw (e, request_more) (rw a (rw b (rw c all)))
                  ]
          ]
        ]
  ]

pub set_state-IsConsistent :
    (s : Phase) (t : Torrent) → IsConsistent t → IsConsistent (set_state s t)
set_state-IsConsistent s t h = record { live = h.live; whole = h.whole; complement = h.complement }

-- What is asked of a result that may be undefined.
abbrev pub Keeps : Option Torrent → Type 0
Keeps none = Unit
Keeps (some t) = IsConsistent t

note_download-IsConsistent : (t : Torrent) → IsConsistent t → IsConsistent (note_download t)
unfolding note_download
note_download-IsConsistent t h =
    elim (Bool-cases (
      not (is_downloading t.state)
      && not (is_endgame t.state)
      && ltb 0 (count_true t.completed_pieces))) [
        | inl e ↦ rw e (set_state-IsConsistent downloading t h)
        | inr e ↦ rw e h
      ]

put_block-IsConsistent :
    (i begin : ℕ) (bytes : Bytes) (t : Torrent)
    → IsConsistent t
    → IsConsistent (put_block i begin bytes t)
unfolding put_block
put_block-IsConsistent i begin bytes t h =
    let m = complete_block-IsMild i (begin / block_size) in
    record {
      live = update_piece-IsLive i _ t.pending_pieces t.payloads m h.live;
      whole = update_piece-IsWhole i _ t.pending_pieces m h.whole;
      complement = h.complement;
    }

ask_verification-IsConsistent :
    (p : TorrentPiece) (t : Torrent) → IsConsistent t → IsConsistent (ask_verification p t)
unfolding ask_verification
ask_verification-IsConsistent p t h = elim (Bool-cases (blocks_left_for_piece p == 0)) [
  | inl e ↦ rw e (record {
    live = live-remove_payloads (IsLive t.pending_pieces) p.index t.payloads h.live;
    whole = h.whole;
    complement = h.complement;
  })
  | inr e ↦ rw e h
]

module _ (emit : Slots) (qrand : ℕ → ℕ) where
  cancel_others-IsConsistent :
      (n : ℕ) (b : TorrentBlock) (t : Torrent)
      → IsConsistent t
      → IsConsistent (cancel_others emit n b t)
  unfolding cancel_others
  cancel_others-IsConsistent n b t h = elim (Bool-cases (is_multi t.state)) [
    | inl e ↦ rw e (record { live = h.live; whole = h.whole; complement = h.complement })
    | inr e ↦ rw e h
  ]

  store_block-IsConsistent :
      (n begin : ℕ) (bytes : Bytes) (p : TorrentPiece) (t : Torrent)
      → IsConsistent t
      → IsConsistent (store_block emit qrand n begin bytes p t)
  unfolding store_block
  store_block-IsConsistent n begin bytes p t h =
      let b : TorrentBlock = record {
        piece_index = p.index;
        offset = begin;
        length_of = length bytes;
      } in
      let t1 : Torrent = cancel_others emit n b t in
      ask_verification-IsConsistent (complete_block (begin / block_size) p) _ (
        put_block-IsConsistent p.index begin bytes (note_download t1)
          (note_download-IsConsistent t1 (cancel_others-IsConsistent n b t h)))

  pub block_received-Keeps :
      (n i begin : ℕ) (bytes : Bytes) (t : Torrent)
      → IsConsistent t
      → Keeps (block_received emit qrand n i begin bytes t)
  unfolding block_received
  block_received-Keeps n i begin bytes t h = elim (Bool-cases (is_empty bytes)) [
    | inl e ↦ rw e (record { live = h.live; whole = h.whole; complement = h.complement })
    | inr e ↦ elim (Option-cases (lookup_piece i t.pending_pieces)) [
      | inl f ↦ rw e (rw f (request_more-IsConsistent emit qrand n t h))
      | inr (p, f) ↦ elim (Option-cases (get_elem? p.completed_blocks (begin / block_size))) [
        | inl g ↦ rw e (rw f (rw g tt))
        | inr (true, g) ↦ rw e (rw f (rw g (request_more-IsConsistent emit qrand n t h)))
        | inr (false, g) ↦ rw e (
            rw f (
              rw g (
                request_more-IsConsistent emit qrand n _
                  (store_block-IsConsistent n begin bytes p t h))))
      ]
    ]
  ]

notified-IsConsistent :
    (emit : Slots) (i : ℕ) (t : Torrent)
    → IsConsistent t
    → IsConsistent (record t {
      payloads = remove_payloads i t.payloads;
      peers = map (update_interest t.piece_count t.incomplete_pieces) t.peers;
      pending_pieces = remove_piece i t.pending_pieces;
      completed_pieces = set t.completed_pieces i true;
      incomplete_pieces = set t.incomplete_pieces i false;
      connections = notify_peers emit i t.connections;
    })
notified-IsConsistent emit i t h = record {
  live = remove_piece-IsLive i t.pending_pieces t.payloads h.live;
  whole = remove_piece-IsWhole i t.pending_pieces h.whole;
  complement = ap (λ (b : List Bool). set b i false) h.complement ∙ set-not t.completed_pieces i;
}
  where
    set-not : (b : List Bool) (i : ℕ) → set (map not b) i false ≡ map not (set b i true)
    set-not [] i = refl
    set-not (x ∷ xs) zero = refl
    set-not (x ∷ xs) (suc i) = ap (λ (r : List Bool). not x ∷ r) (set-not xs i)

update_progress-IsConsistent : (t : Torrent) → IsConsistent t → IsConsistent (update_progress t)
unfolding update_progress
update_progress-IsConsistent t h = record {
  live = h.live;
  whole = h.whole;
  complement = h.complement;
}

after_completion-IsConsistent :
    (emit : Slots) (t : Torrent) → IsConsistent t → IsConsistent (after_completion emit t)
unfolding after_completion
after_completion-IsConsistent emit t h =
    let incomplete : ℕ = count_true t.incomplete_pieces in
    elim (Bool-cases (count_true t.completed_pieces == t.piece_count)) [
      | inl all ↦ elim (Bool-cases (is_seeding t.state)) [
        | inl e ↦ rw all (rw e h)
        | inr e ↦
            rw all (rw e (record { live = h.live; whole = h.whole; complement = h.complement }))
      ]
      | inr some_left ↦ elim (Bool-cases (count_true t.completed_pieces == 1)) [
        | inl e ↦
            rw some_left
              (rw e (record { live = h.live; whole = h.whole; complement = h.complement }))
        | inr e ↦ elim (Bool-cases (ltb incomplete 5 && ltb incomplete (length t.pending_pieces))) [
          | inl f ↦
              rw some_left
                (rw e (rw f (record { live = h.live; whole = h.whole; complement = h.complement })))
          | inr f ↦
              rw some_left
                (rw e (rw f (record { live = h.live; whole = h.whole; complement = h.complement })))
        ]
      ]
    ]

pub piece_verified-Keeps :
    (emit : Slots) (i : ℕ) (ok : Bool) (t : Torrent)
    → IsConsistent t
    → Keeps (piece_verified emit i ok t)
unfolding piece_verified
piece_verified-Keeps emit i true t h =
    update_progress-IsConsistent _
      (after_completion-IsConsistent emit _ (notified-IsConsistent emit i t h))
piece_verified-Keeps emit i false t h = elim (Option-cases (lookup_piece i t.pending_pieces)) [
  | inl e ↦ rw (e, piece_verified) tt
  | inr (p, e) ↦
      rw (e, piece_verified)
        (record {
          live =
              update_piece-IsLive i clear_piece t.pending_pieces (remove_payloads i t.payloads)
                (clear_piece-IsMild i)
                (live-remove_payloads (IsLive t.pending_pieces) i t.payloads h.live);
          whole =
              update_piece-IsWhole i clear_piece t.pending_pieces (clear_piece-IsMild i) h.whole;
          complement = h.complement;
        })
]

module _ (P : List TorrentPiece → Type 0)
    (step : (i : ℕ) (ps : List TorrentPiece) → P ps → P (update_piece i release_piece ps)) where
  release_all-keeps : (is : List ℕ) (ps : List TorrentPiece) → P ps → P (release_all is ps)
  release_all-keeps [] ps h = h
  release_all-keeps (i ∷ is) ps h = release_all-keeps is _ (step i ps h)

pub peer_choked-IsConsistent :
    (n : ℕ) (t : Torrent) → IsConsistent t → IsConsistent (peer_choked n t)
unfolding peer_choked
peer_choked-IsConsistent n t h = record {
  live =
      release_all-keeps (λ ps. All (IsLive ps) (remove_client_payloads n t.payloads))
        (λ i ps g. update_piece-IsLive i release_piece ps _ (release_piece-IsMild i) g)
        (pieces_of n t.payloads) t.pending_pieces
        (live-remove_client_payloads (IsLive t.pending_pieces) n t.payloads h.live);
  whole =
      release_all-keeps (All IsWhole)
        (λ i ps g. update_piece-IsWhole i release_piece ps (release_piece-IsMild i) g)
        (pieces_of n t.payloads) t.pending_pieces h.whole;
  complement = h.complement;
}

pub remove_client-IsConsistent :
    (n : ℕ) (refused : Bool) (t : Torrent)
    → IsConsistent t
    → IsConsistent (remove_client n refused t)
unfolding remove_client
remove_client-IsConsistent n refused t h =
    let c = peer_choked-IsConsistent n t h in
    record { live = c.live; whole = c.whole; complement = c.complement }
