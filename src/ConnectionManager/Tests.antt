-- ===== src/ConnectionManager/Tests.antt =====
-- The theorem on src/connectionmanager.cpp at a first call.
use uenclient.Common.{[], ◌≡◌, refl, codes, length, arith}
use uenclient.ConnectionManager.{Manager, client_id, client_id-length}

abbrev empty_manager : Manager
empty_manager = record { connections = []; id = [] }

client_id-length_example :
    (length (client_id 0x040704 (codes "1300000000") empty_manager).1 ≡ 20)
    × (client_id 0x040704
          (codes "1300000001")
          (client_id 0x040704 (codes "1300000000") empty_manager).0
        ≡ (
          (client_id 0x040704 (codes "1300000000") empty_manager).0,
          (client_id 0x040704 (codes "1300000000") empty_manager).1,
        ))
client_id-length_example =
    client_id-length 0x040704 (codes "1300000000") empty_manager (codes "1300000001") (omega arith)
      refl
