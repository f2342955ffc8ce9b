-- ===== src/TorrentClient/Invariant/Scheduling.antt =====
-- `scheduleDownloads` of src/torrentclient.cpp keeps the invariant.
use uenclient.Common.{
  ℕ, zero, suc, ◌+◌, ◌<◌, ◌≡◌, refl, ap, ◌∙◌, Bool, true, false, not, ◌&&◌, ◌||◌, inl, inr, Option,
  none, some, Option-cases, List, [], ◌∷◌, length, leb, ◌==◌, Bool-cases, if-holds, All-imply,
  arith, ◌%◌,
}
use uenclient.PeerWire.Client.{Client, Slots}
use uenclient.PeerWire.Messages.{count_true}
use uenclient.TorrentClient.State.{
  Phase, idle, paused, stopping, preparing, searching, connecting, warming_up, downloading, endgame,
  seeding, is_warming_up, TorrentPiece, Connection, Torrent, insert_piece, pieces_of,
  lookup_connection,
}
use uenclient.TorrentClient.Blocks.{max_in_progress, request_more}
use uenclient.TorrentClient.Schedule.{
  current_pieces, some_idle, first_of, start_piece, new_piece, partial_piece, available_to, assign,
  pick_piece, find_piece, nth_index, warm_up, missing_of, schedule_piece_for_client, schedule_each,
  schedule_downloads,
}
use uenclient.TorrentClient.Invariant.{IsConsistent, IsLive, is_pending}
use uenclient.TorrentClient.Invariant.Pieces.{
  is_pending-update_piece, update_piece-IsLive, update_piece-IsWhole, start_piece-IsMild,
  is_pending-insert_piece, insert_piece-IsWhole, new_piece-IsWhole, partial_piece-pending,
}
use uenclient.TorrentClient.Invariant.Steps.{Keeps, request_more-IsConsistent}

draws-IsConsistent : (d : ℕ) (t : Torrent) → IsConsistent t → IsConsistent (record t { draws = d })
draws-IsConsistent d t h = record { live = h.live; whole = h.whole; complement = h.complement }

insert-IsConsistent :
    (d i len : ℕ) (t : Torrent)
    → IsConsistent t
    → IsConsistent
        (record t { draws = d; pending_pieces = insert_piece (new_piece i len) t.pending_pieces })
insert-IsConsistent d i len t h = record {
  live =
      All-imply (IsLive t.pending_pieces) (IsLive (insert_piece (new_piece i len) t.pending_pieces))
        (λ l e.
          is_pending-insert_piece l.1 (new_piece i len) t.pending_pieces
          ∙ ap (λ (b : Bool). i == l.1 || b) e
          ∙ or_true (i == l.1))
        t.payloads h.live;
  whole = insert_piece-IsWhole (new_piece i len) t.pending_pieces (new_piece-IsWhole i len) h.whole;
  complement = h.complement;
}
  where
    or_true : (b : Bool) → (b || true) ≡ true
    or_true true = refl
    or_true false = refl

nth_index-pending :
    (ps : List TorrentPiece) (k : ℕ) → k < length ps → is_pending (nth_index ps k) ps ≡ true
nth_index-pending [] k h = absurd (omega arith)
nth_index-pending (p ∷ ps) zero h = ground arith
nth_index-pending (p ∷ ps) (suc k) h = ground (arith, nth_index-pending ps k (omega arith))

mod-lt : (n k : ℕ) → 0 < k → n % k < k
mod-lt n k h = grind arith

module _ (emit : Slots) (qrand : ℕ → ℕ) (piece_length_at : ℕ → ℕ) where
  assign-IsConsistent :
      (n i : ℕ) (t : Torrent)
      → is_pending i t.pending_pieces ≡ true
      → IsConsistent t
      → IsConsistent (assign n i t)
  assign-IsConsistent n i t e h = record {
    live = (
      is_pending-update_piece i i start_piece t.pending_pieces (start_piece-IsMild i) ∙ e,
      update_piece-IsLive i start_piece t.pending_pieces t.payloads (start_piece-IsMild i) h.live,
    );
    whole = update_piece-IsWhole i start_piece t.pending_pieces (start_piece-IsMild i) h.whole;
    complement = h.complement;
  }

  find_piece-Keeps :
      (n : ℕ) (c : Client) (current : List ℕ) (t : Torrent)
      → IsConsistent t
      → Keeps (find_piece emit qrand piece_length_at n c current t)
  unfolding find_piece
  find_piece-Keeps n c current t h =
      let bits : List Bool = available_to c current t in
      let (i, d) = pick_piece emit qrand piece_length_at bits t in
      elim (Bool-cases (count_true bits == 0)) [
        | inl e ↦ rw (e, find_piece) tt
        | inr e ↦ elim (Option-cases (partial_piece t.state bits t.pending_pieces)) [
          | inr (j, f) ↦
              rw (e, find_piece)
                (rw (f, find_piece)
                  (assign-IsConsistent n j (record t { draws = t.draws + 1 })
                    (partial_piece-pending t.state bits t.pending_pieces j f)
                    (draws-IsConsistent (t.draws + 1) t h)))
          | inl f ↦
              let fresh : is_pending i
                    (insert_piece (new_piece i (piece_length_at i)) t.pending_pieces)
                  ≡ true =
                is_pending-insert_piece i (new_piece i (piece_length_at i)) t.pending_pieces
                ∙ ground arith in
              rw (e, find_piece)
                (rw (f, find_piece)
                  (assign-IsConsistent n i _ fresh
                    (insert-IsConsistent d i (piece_length_at i) t h)))
        ]
      ]

  warm_up-IsConsistent :
      (n : ℕ) (t : Torrent)
      → 0 < length t.pending_pieces
      → IsConsistent t
      → IsConsistent (warm_up emit qrand piece_length_at n t).1
  unfolding warm_up
  warm_up-IsConsistent n t some_pending h =
      elim (Option-cases (first_of (pieces_of n t.payloads))) [
        | inr (j, e) ↦ rw (e, warm_up) h
        | inl e ↦
            rw (e, warm_up)
              (assign-IsConsistent n _ (record t { draws = t.draws + 1 })
                (nth_index-pending t.pending_pieces (qrand t.draws % length t.pending_pieces)
                  (mod-lt (qrand t.draws) (length t.pending_pieces) some_pending))
                (draws-IsConsistent (t.draws + 1) t h))
      ]

  -- After the search for a piece.
  searched-IsConsistent :
      (n : ℕ) (c : Client) (current : List ℕ) (t : Torrent)
      → IsConsistent t
      → IsConsistent (elim (find_piece emit qrand piece_length_at n c current t) [
        | none ↦ t
        | some u ↦ request_more emit qrand n u
      ])
  searched-IsConsistent n c current t h =
      after (find_piece emit qrand piece_length_at n c current t) (find_piece-Keeps n c current t h)
    where
      after :
          (o : Option Torrent)
          → Keeps o
          → IsConsistent (elim o [ none ↦ t | some u ↦ request_more emit qrand n u ])
      after none k = h
      after (some u) k = request_more-IsConsistent emit qrand n u k

  pub schedule_piece_for_client-IsConsistent :
      (n : ℕ) (t : Torrent)
      → IsConsistent t
      → IsConsistent (schedule_piece_for_client emit qrand piece_length_at n t)
  unfolding schedule_piece_for_client
  schedule_piece_for_client-IsConsistent n t h =
      elim (Option-cases (lookup_connection n t.connections)) [
        | inl e ↦ rw (e, schedule_piece_for_client) h
        | inr (k, e) ↦
            let mine : List ℕ = pieces_of n t.payloads in
            let busy : ℕ = length k.client.incoming in
            let current : List ℕ = current_pieces t.pending_pieces mine in
            let more = request_more-IsConsistent emit qrand n in
            let warm : ℕ × Torrent = warm_up emit qrand piece_length_at n t in
            rw (e, schedule_piece_for_client)
              (if-holds IsConsistent (not k.connected) (λ a. h)
                λ a.
                  if-holds IsConsistent k.client.choked_by_peer (λ b. h)
                    λ b.
                      if-holds IsConsistent (leb (max_in_progress t.state) busy) (λ c. h)
                        λ c.
                          if-holds IsConsistent
                            (is_warming_up t.state && leb 4 (length t.pending_pieces))
                            (λ d.
                              let w = warm_up-IsConsistent n t (ground arith) h in
                              if-holds IsConsistent
                                (missing_of warm.0 warm.1.pending_pieces == busy) (λ f. w)
                                λ f. more warm.1 w)
                            λ d.
                              if-holds IsConsistent (some_idle t.pending_pieces mine && busy == 0)
                                (λ f. more t h) λ f. searched-IsConsistent n k.client current t h)
      ]

  schedule_each-IsConsistent :
      (ks : List Connection) (t : Torrent)
      → IsConsistent t
      → IsConsistent (schedule_each emit qrand piece_length_at ks t)
  schedule_each-IsConsistent [] t h = h
  schedule_each-IsConsistent (k ∷ ks) t h =
      schedule_each-IsConsistent ks _ (schedule_piece_for_client-IsConsistent k.number t h)

  pub schedule_downloads-IsConsistent :
      (t : Torrent)
      → IsConsistent t
      → IsConsistent (schedule_downloads emit qrand piece_length_at t)
  unfolding schedule_downloads
  schedule_downloads-IsConsistent t h =
      by_state t.state
        (schedule_each-IsConsistent t.connections (record t { scheduler_called = false }) called)
    where
      called : IsConsistent (record t { scheduler_called = false })
      called = record { live = h.live; whole = h.whole; complement = h.complement }

      by_state :
          (s : Phase) {u : Torrent}
          → IsConsistent u
          → IsConsistent (elim s [
            | stopping ↦ record t { scheduler_called = false }
            | paused ↦ record t { scheduler_called = false }
            | idle ↦ record t { scheduler_called = false }
            | _ ↦ u
          ])
      by_state idle g = called
      by_state paused g = called
      by_state stopping g = called
      by_state preparing g = g
      by_state searching g = g
      by_state connecting g = g
      by_state warming_up g = g
      by_state downloading g = g
      by_state endgame g = g
      by_state seeding g = g
