-- ===== src/TorrentClient/Uploads/Chosen.antt =====
-- Whom `scheduleUploads` of src/torrentclient.cpp leaves unchoked.
use uenclient.Common.{ℕ, ◌≡◌, ◌⊎◌, List, take, drop, All}
use uenclient.TorrentClient.State.{Connection}
use uenclient.TorrentClient.Uploads.{max_uploads, Uploads}
use uenclient.TorrentClient.Uploads.Ranking.{IsDescending}
use uenclient.TorrentClient.Uploads.Turns.{IsServed, IsIdle}

-- The fastest clients are unchoked, and all others are choked or given up, but for one at most.
pub record IsScheduled (ranking : List (ℕ × ℕ)) (cs : List Connection) : Type 0 where
  pub descending : IsDescending ranking
  pub served : All (IsServed cs) (take max_uploads ranking)
  pub lucky : ℕ
  pub others : All (λ (e : ℕ × ℕ). (e.1 ≡ lucky) ⊎ IsIdle cs e) (drop max_uploads ranking)
