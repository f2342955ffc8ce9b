-- ===== src/TorrentClient/Invariant/Reachable.antt =====
-- The steps of `TorrentClient`, src/torrentclient.cpp, in any order, and what holds after them.
use uenclient.Common.{ℕ, ◌≡◌, Bool, some, Bytes, subst}
use uenclient.PeerWire.Client.{Slots}
use uenclient.TorrentClient.State.{Torrent}
use uenclient.TorrentClient.Receiving.{block_received, piece_verified, peer_choked, remove_client}
use uenclient.TorrentClient.Schedule.{schedule_downloads}
use uenclient.TorrentClient.Invariant.{IsConsistent}
use uenclient.TorrentClient.Invariant.Steps.{
  Keeps, block_received-Keeps, piece_verified-Keeps, peer_choked-IsConsistent,
  remove_client-IsConsistent,
}
use uenclient.TorrentClient.Invariant.Scheduling.{schedule_downloads-IsConsistent}

module _ (emit : Slots) (qrand piece_length_at : ℕ → ℕ) where
  -- One slot of the client, called by the event loop.
  pub data Step (t : Torrent) : Torrent → Type 0 where
    received :
        (n i begin : ℕ) (bytes : Bytes) (u : Torrent)
        → block_received emit qrand n i begin bytes t ≡ some u
        → Step t u
    verified : (i : ℕ) (ok : Bool) (u : Torrent) → piece_verified emit i ok t ≡ some u → Step t u
    choked : (n : ℕ) → Step t (peer_choked n t)
    left : (n : ℕ) (refused : Bool) → Step t (remove_client n refused t)
    scheduled : Step t (schedule_downloads emit qrand piece_length_at t)

  -- A sequence of them.
  pub data Reaches (t : Torrent) : Torrent → Type 0 where
    here : Reaches t t
    after : (u v : Torrent) → Reaches t u → Step u v → Reaches t v

  Step-IsConsistent : (t u : Torrent) → Step t u → IsConsistent t → IsConsistent u
  Step-IsConsistent t u (received n i begin bytes _ e) h =
      subst Keeps e (block_received-Keeps emit qrand n i begin bytes t h)
  Step-IsConsistent t u (verified i ok _ e) h = subst Keeps e (piece_verified-Keeps emit i ok t h)
  Step-IsConsistent t _ (choked n) h = peer_choked-IsConsistent n t h
  Step-IsConsistent t _ (left n refused) h = remove_client-IsConsistent n refused t h
  Step-IsConsistent t _ scheduled h = schedule_downloads-IsConsistent emit qrand piece_length_at t h

  -- However the blocks that arrive, the results of verification, the chokes, the lost connections
  -- and the runs of the scheduler follow each other: every payload points to a piece that is
  -- pending, every pending piece has a bit for each of its blocks, and a piece is incomplete if and
  -- only if it is not completed, when it is so at the beginning.
  pub Reaches-IsConsistent : (t u : Torrent) → Reaches t u → IsConsistent t → IsConsistent u
  Reaches-IsConsistent t _ here h = h
  Reaches-IsConsistent t v (after u _ r s) h =
      Step-IsConsistent u v s (Reaches-IsConsistent t u r h)
