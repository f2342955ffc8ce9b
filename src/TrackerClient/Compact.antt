-- ===== src/TrackerClient/Compact.antt =====
-- The compact peer list that src/trackerclient.cpp reads: six bytes for each peer.
use uenclient.Common.{
  ℕ, ◌/◌, ◌%◌, ◌^◌, ◌<◌, ◌≡◌, ◌≢◌, refl, sym, ap, ap₂, ◌∙◌, none, some, List, [], ◌∷◌, ◌++◌, map,
  Bytes, All, arith, length, append-nil, append_assoc,
}
use uenclient.PeerWire.Words.{from_network_data-bytes}
use uenclient.TrackerClient.State.{TrackerPeer}
use uenclient.TrackerClient.Reply.{compact_peer, compact_peers}

-- An address and a port in network order.
abbrev pub compact_of : List (ℕ × ℕ) → Bytes
compact_of [] = []
compact_of ((a, p) ∷ ps) =
    a / 2 ^ 24 % 256
    ∷ a / 2 ^ 16 % 256
    ∷ a / 2 ^ 8 % 256
    ∷ a % 256
    ∷ p / 256
    ∷ p % 256
    ∷ compact_of ps

abbrev pub IsEndpoint : ℕ × ℕ → Type 0
IsEndpoint e = (e.0 < 2 ^ 32) × (e.1 < 2 ^ 16)

abbrev pub peer_at : ℕ × ℕ → TrackerPeer
peer_at e = record { id = []; address = e.0; port = e.1 }

compact_peer-bytes :
    (a p : ℕ)
    → a < 2 ^ 32
    → p < 2 ^ 16
    → compact_peer
        (a / 2 ^ 24 % 256)
        (a / 2 ^ 16 % 256)
        (a / 2 ^ 8 % 256)
        (a % 256)
        (p / 256)
        (p % 256)
      ≡ peer_at (a, p)
unfolding compact_peer
compact_peer-bytes a p h k =
    ap₂ (λ (x y : ℕ). let r : TrackerPeer = record { id = []; address = x; port = y } in r)
      (from_network_data-bytes a h) (omega arith)

-- Every list of addresses and ports is read from its compact form as it was.
pub compact_peers-compact_of :
    (ps : List TrackerPeer) (es : List (ℕ × ℕ))
    → All IsEndpoint es
    → compact_peers ps (compact_of es) ≡ some (ps ++ map peer_at es)
unfolding compact_peers
compact_peers-compact_of ps [] h = ap some (sym (append-nil ps))
compact_peers-compact_of ps ((a, p) ∷ es) h =
    ap (λ (q : TrackerPeer). compact_peers (ps ++ q ∷ []) (compact_of es))
      (compact_peer-bytes a p h.0.0 h.0.1)
    ∙ compact_peers-compact_of (ps ++ peer_at (a, p) ∷ []) es h.1
    ∙ ap some (append_assoc ps (peer_at (a, p) ∷ []) (map peer_at es))

-- A compact list whose length is neither a multiple of six nor one byte short of it is read past
-- its end.
pub compact_peers-cut :
    (ps : List TrackerPeer) (bytes : Bytes)
    → length bytes % 6 ≢ 0
    → length bytes % 6 ≢ 5
    → compact_peers ps bytes ≡ none
unfolding compact_peers
compact_peers-cut ps [] h k = absurd (h refl)
compact_peers-cut ps (b0 ∷ []) h k = refl
compact_peers-cut ps (b0 ∷ b1 ∷ []) h k = refl
compact_peers-cut ps (b0 ∷ b1 ∷ b2 ∷ []) h k = refl
compact_peers-cut ps (b0 ∷ b1 ∷ b2 ∷ b3 ∷ []) h k = refl
compact_peers-cut ps (b0 ∷ b1 ∷ b2 ∷ b3 ∷ b4 ∷ []) h k = absurd (k refl)
compact_peers-cut ps (b0 ∷ b1 ∷ b2 ∷ b3 ∷ b4 ∷ b5 ∷ rest) h k =
    compact_peers-cut (ps ++ compact_peer b0 b1 b2 b3 b4 b5 ∷ []) rest (omega arith) (omega arith)
