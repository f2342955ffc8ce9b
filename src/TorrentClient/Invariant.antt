-- ===== src/TorrentClient/Invariant.antt =====
-- The invariant of `TorrentClient`, src/torrentclient.cpp: payloads point to pieces that are there.
pub mod Pieces
pub mod Steps
pub mod Scheduling
pub mod Reachable
use uenclient.Common.{
  ℕ, ◌+◌, ◌≡◌, Bool, true, false, not, ◌||◌, List, [], ◌∷◌, length, map, ◌==◌, All,
}
use uenclient.TorrentClient.State.{TorrentPiece, Torrent}
use uenclient.TorrentClient.Blocks.Requests.{IsWhole}

abbrev pub is_pending : ℕ → List TorrentPiece → Bool
is_pending i [] = false
is_pending i (p ∷ ps) = p.index == i || is_pending i ps

-- The piece of a payload is pending.
abbrev pub IsLive : List TorrentPiece → ℕ × ℕ → Type 0
IsLive pending payload = is_pending payload.1 pending ≡ true

-- Every payload points to a pending piece, every pending piece has a bit for each of its blocks, and
-- a piece is incomplete if and only if it is not completed.
pub record IsConsistent (t : Torrent) : Type 0 where
  pub live : All (IsLive t.pending_pieces) t.payloads
  pub whole : All IsWhole t.pending_pieces
  pub complement : t.incomplete_pieces ≡ map not t.completed_pieces
