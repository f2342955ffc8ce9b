-- ===== src/TorrentClient.antt =====
-- The torrent client, src/torrentclient.cpp: pieces, blocks and peers of one torrent.
pub mod State
pub mod Blocks
pub mod Receiving
pub mod Schedule
pub mod Invariant
pub mod Uploads
pub mod PeerList
pub mod Lifecycle
pub mod Serving
pub mod Progress
pub mod LastPiece
mod Tests
