-- ===== src/PeerWire.antt =====
-- The peer wire protocol client, src/peerwireclient.cpp and src/peerwireclient.h.
pub mod Words
pub mod Client
pub mod Messages
pub mod Incoming
pub mod Transfer
pub mod Protocol
mod Tests
