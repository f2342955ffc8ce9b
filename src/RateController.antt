-- ===== src/RateController.antt =====
-- The rate controller, src/ratecontroller.cpp.
pub mod Sockets
pub mod Transfer
pub mod Budget
pub mod Members
pub mod Peers
mod Tests
