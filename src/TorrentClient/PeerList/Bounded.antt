-- ===== src/TorrentClient/PeerList/Bounded.antt =====
-- What `addToPeerList` of src/torrentclient.cpp keeps of its list: its length, and that no peer is
-- in it twice.
use uenclient.Common.{
  ℕ, zero, suc, ◌-◌, ◌≤◌, ◌≡◌, refl, sym, subst, ltb→lt, ◌⊎◌, true, false, List, [], ◌∷◌, ◌++◌, All,
  All-append, arith, length, drop, length-drop, ltb, Bool-cases, inl, inr, if-holds, if◌then◌else◌,
}
use uenclient.TorrentClient.State.{Peer, Connection, Torrent}
use uenclient.TorrentClient.PeerList.{
  Host, is_at, is_known, new_peer, is_own, add_peers, is_active, remove_inactive, max_peers,
  limit_peers, merge_peers,
}
use uenclient.TrackerClient.State.{TrackerPeer}

-- Two peers with different addresses or ports.
abbrev pub Differs : Peer → Peer → Type 0
Differs p q = is_at p.address p.port q ≡ false

-- No address and port twice.
abbrev pub HasDistinctPeers : List Peer → Type 0
HasDistinctPeers [] = Unit
HasDistinctPeers (p ∷ ps) = All (Differs p) ps × HasDistinctPeers ps

is_known-Differs :
    (address port : ℕ) (ps : List Peer)
    → is_known address port ps ≡ false
    → All (λ (q : Peer). is_at address port q ≡ false) ps
unfolding is_known
is_known-Differs address port [] h = tt
is_known-Differs address port (p ∷ ps) h = elim (Bool-cases (is_at address port p)) [
  | inl e ↦ cc (rw e at h)
  | inr e ↦ (e, is_known-Differs address port ps (rw e at h))
]

is_at-sym : (p q : Peer) → is_at p.address p.port q ≡ false → is_at q.address q.port p ≡ false
is_at-sym p q h = ground arith

append-HasDistinctPeers :
    (ps : List Peer) (q : Peer)
    → HasDistinctPeers ps
    → All (λ (p : Peer). is_at q.address q.port p ≡ false) ps
    → HasDistinctPeers (ps ++ q ∷ [])
append-HasDistinctPeers [] q d h = (tt, tt)
append-HasDistinctPeers (p ∷ ps) q d h = (
  All-append (Differs p) ps (q ∷ []) d.0 (is_at-sym q p h.0, tt),
  append-HasDistinctPeers ps q d.1 h.1,
)

drop-HasDistinctPeers :
    (n : ℕ) (ps : List Peer) → HasDistinctPeers ps → HasDistinctPeers (drop n ps)
drop-HasDistinctPeers zero ps d = d
drop-HasDistinctPeers (suc n) [] d = tt
drop-HasDistinctPeers (suc n) (p ∷ ps) d = drop-HasDistinctPeers n ps d.1

module _ (h : Host) where
  add_peers-HasDistinctPeers :
      (count : ℕ) (found : List TrackerPeer) (ps : List Peer)
      → HasDistinctPeers ps
      → HasDistinctPeers (add_peers h count found ps)
  unfolding add_peers
  add_peers-HasDistinctPeers count [] ps d = d
  add_peers-HasDistinctPeers count (p ∷ more) ps d = elim (Bool-cases (is_own h p)) [
    | inl e ↦ rw e (add_peers-HasDistinctPeers count more ps d)
    | inr e ↦ elim (Bool-cases (is_known p.address p.port ps)) [
      | inl k ↦ rw (e, k) (add_peers-HasDistinctPeers count more ps d)
      | inr k ↦
          rw (e, k)
            (add_peers-HasDistinctPeers count more (ps ++ new_peer count p ∷ []) (
              append-HasDistinctPeers ps (new_peer count p) d
                (unfold new_peer in is_known-Differs p.address p.port ps k)))
    ]
  ]

  remove_inactive-All :
      (P : Peer → Type 0) (n : ℕ) (ks : List Connection) (ps : List Peer)
      → All P ps
      → All P (remove_inactive h n ks ps)
  unfolding remove_inactive
  remove_inactive-All P zero ks ps d = d
  remove_inactive-All P (suc n) ks [] d = tt
  remove_inactive-All P (suc n) ks (p ∷ ps) d = elim (Bool-cases (is_active h p ks)) [
    | inl e ↦ rw (e, remove_inactive) (d.0, remove_inactive-All P (suc n) ks ps d.1)
    | inr e ↦ rw (e, remove_inactive) (remove_inactive-All P n ks ps d.1)
  ]

  remove_inactive-HasDistinctPeers :
      (n : ℕ) (ks : List Connection) (ps : List Peer)
      → HasDistinctPeers ps
      → HasDistinctPeers (remove_inactive h n ks ps)
  unfolding remove_inactive
  remove_inactive-HasDistinctPeers zero ks ps d = d
  remove_inactive-HasDistinctPeers (suc n) ks [] d = tt
  remove_inactive-HasDistinctPeers (suc n) ks (p ∷ ps) d = elim (Bool-cases (is_active h p ks)) [
    | inl e ↦
        rw (e, remove_inactive)
          (
            remove_inactive-All (Differs p) (suc n) ks ps d.0,
            remove_inactive-HasDistinctPeers (suc n) ks ps d.1,
          )
    | inr e ↦ rw (e, remove_inactive) (remove_inactive-HasDistinctPeers n ks ps d.1)
  ]

  limit_peers-HasDistinctPeers :
      (ks : List Connection) (ps : List Peer)
      → HasDistinctPeers ps
      → HasDistinctPeers (limit_peers h ks ps)
  unfolding limit_peers
  limit_peers-HasDistinctPeers ks ps d =
      let fewer : List Peer = remove_inactive h (length ps - max_peers h) ks ps in
      if-holds HasDistinctPeers (ltb (max_peers h) (length ps))
        (λ _.
          drop-HasDistinctPeers (length fewer - max_peers h) fewer
            (remove_inactive-HasDistinctPeers (length ps - max_peers h) ks ps d))
        (λ _. d)

  limit_peers-length :
      (ks : List Connection) (ps : List Peer) → length (limit_peers h ks ps) ≤ max_peers h
  unfolding limit_peers
  limit_peers-length ks ps =
      let fewer : List Peer = remove_inactive h (length ps - max_peers h) ks ps in
      if-holds (λ (qs : List Peer). length qs ≤ max_peers h) (ltb (max_peers h) (length ps))
        (λ _. omega (arith, length-drop (length fewer - max_peers h) fewer)) (λ e. ground arith)

  limit_peers-room :
      (ks : List Connection) (ps : List Peer) → length ps ≤ max_peers h → limit_peers h ks ps ≡ ps
  unfolding limit_peers
  limit_peers-room ks ps small =
      if-holds (λ (qs : List Peer). qs ≡ ps) (ltb (max_peers h) (length ps))
        (λ e. absurd (omega (arith, ltb→lt (max_peers h) (length ps) e))) (λ _. refl)

  is_known-append :
      (a p : ℕ) (ps qs : List Peer) → is_known a p ps ≡ true → is_known a p (ps ++ qs) ≡ true
  unfolding is_known
  is_known-append a p [] qs k = cc
  is_known-append a p (x ∷ ps) qs k = elim (Bool-cases (is_at a p x)) [
    | inl e ↦ rw e
    | inr e ↦ rw e (is_known-append a p ps qs (rw e at k))
  ]

  is_known-append_last :
      (a p : ℕ) (ps : List Peer) (q : Peer)
      → is_at a p q ≡ true
      → is_known a p (ps ++ q ∷ []) ≡ true
  unfolding is_known
  is_known-append_last a p [] q e = rw e
  is_known-append_last a p (x ∷ ps) q e = elim (Bool-cases (is_at a p x)) [
    | inl f ↦ rw f
    | inr f ↦ rw f (is_known-append_last a p ps q e)
  ]

  add_peers-is_known :
      (count a p : ℕ) (found : List TrackerPeer) (ps : List Peer)
      → is_known a p ps ≡ true
      → is_known a p (add_peers h count found ps) ≡ true
  unfolding add_peers
  add_peers-is_known count a p [] ps k = k
  add_peers-is_known count a p (x ∷ more) ps k = elim (Bool-cases (is_own h x)) [
    | inl e ↦ rw e (add_peers-is_known count a p more ps k)
    | inr e ↦ elim (Bool-cases (is_known x.address x.port ps)) [
      | inl f ↦ rw (e, f) (add_peers-is_known count a p more ps k)
      | inr f ↦
          rw (e, f)
            (add_peers-is_known count a p more (ps ++ new_peer count x ∷ [])
              (is_known-append a p ps (new_peer count x ∷ []) k))
    ]
  ]

  -- Every peer that was announced is this program's own server, or is known then.
  abbrev pub IsTaken : List Peer → TrackerPeer → Type 0
  IsTaken ps p = (is_own h p ≡ true) ⊎ (is_known p.address p.port ps ≡ true)

  add_peers-IsTaken_later :
      (count : ℕ) (x : TrackerPeer) (more : List TrackerPeer) (qs : List Peer)
      → IsTaken qs x
      → IsTaken (add_peers h count more qs) x
  add_peers-IsTaken_later count x more qs (inl e) = inl e
  add_peers-IsTaken_later count x more qs (inr k) =
      inr (add_peers-is_known count x.address x.port more qs k)

  new_peer-is_at : (count : ℕ) (x : TrackerPeer) → is_at x.address x.port (new_peer count x) ≡ true
  unfolding new_peer
  new_peer-is_at count x = ground arith

  add_peers-IsTaken :
      (count : ℕ) (found : List TrackerPeer) (ps : List Peer)
      → All (IsTaken (add_peers h count found ps)) found
  unfolding add_peers
  add_peers-IsTaken count [] ps = tt
  add_peers-IsTaken count (x ∷ more) ps =
      let longer : List Peer = ps ++ new_peer count x ∷ [] in
      let qs : List Peer =
        if is_own h x then ps else if is_known x.address x.port ps then ps else longer in
      let taken : IsTaken qs x =
        if-holds (λ (rs : List Peer). IsTaken rs x) (is_own h x) (λ e. inl e)
          (λ _.
            if-holds (λ (rs : List Peer). IsTaken rs x) (is_known x.address x.port ps) (λ f. inr f)
              (λ _. inr (
                is_known-append_last x.address x.port ps (new_peer count x)
                  (new_peer-is_at count x)))) in
      (add_peers-IsTaken_later count x more qs taken, add_peers-IsTaken count more qs)

  -- The list of peers that a tracker's list is merged into never has more than 750 peers, and none
  -- twice if it had none twice; as long as there is room for all, every announced peer is known then,
  -- but for the program's own server.
  pub merge_peers_lem :
      (found : List TrackerPeer) (t : Torrent)
      → HasDistinctPeers t.peers
      → HasDistinctPeers (merge_peers h found t).peers
        × (length (merge_peers h found t).peers ≤ 750)
        × (length (add_peers h t.piece_count found t.peers) ≤ 750
            → All (IsTaken (merge_peers h found t).peers) found)
  unfolding merge_peers
  merge_peers_lem found t d =
      let ps : List Peer = add_peers h t.piece_count found t.peers in
      (
        limit_peers-HasDistinctPeers t.connections ps
            (add_peers-HasDistinctPeers t.piece_count found t.peers d),
        limit_peers-length t.connections ps,
        λ room.
            subst (λ (qs : List Peer). All (IsTaken qs) found)
              (sym (limit_peers-room t.connections ps room))
              (add_peers-IsTaken t.piece_count found t.peers),
      )
