-- ===== src/TorrentClient/LastPiece.antt =====
-- The last piece of a torrent whose size is a multiple of the piece length: `pieceLengthAt` of
-- src/filemanager.cpp and what src/torrentclient.cpp makes of it.
use uenclient.PeerWire.Client.{Client}
