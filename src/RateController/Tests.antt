-- ===== src/RateController/Tests.antt =====
-- A tick of the rate controller over two peer wire clients.
use uenclient.Common.{
  ℕ, ◌+◌, ◌*◌, ◌/◌, ◌≤◌, ◌≡◌, true, Option, some, [], ◌∷◌, Bytes, length, length-replicate,
  replicate, codes, min, arith,
}
use uenclient.PeerWire.Client.{Slots, new_client}
use uenclient.RateController.Sockets.{Sockets}
use uenclient.RateController.Transfer.{Ticked, transfer}
use uenclient.RateController.Budget.{total_sent, total_got, transfer-within_budget}
use uenclient.RateController.Peers.{Link, links}

abbrev quiet : Slots
quiet g c = c

-- A socket that takes what it is offered, and one that has no end of zeros.
abbrev takes_all : ℕ → Bytes → Option ℕ
takes_all i offered = some (length offered)

takes_all-le : (i : ℕ) (o : Bytes) (n : ℕ) → takes_all i o ≡ some n → n ≤ length o
takes_all-le i o n e = ground arith

abbrev zeros : ℕ → ℕ → Bytes
zeros i n = replicate n 0

zeros-le : (i n : ℕ) → length (zeros i n) ≤ n
zeros-le i n = omega (arith, length-replicate {A = ℕ} n 0)

abbrev both : Sockets
both = links quiet takes_all zeros takes_all-le zeros-le

-- A client with 20 bytes to send.
abbrev link : Link
link = record {
  client = record (new_client (codes "-UE0000-123456789012")) { outgoing_buffer = replicate 20 7 };
  available = 0;
  unsent = 0;
  is_connected = true;
  got = 0;
  sent = 0;
}

transfer-within_budget_example :
    (t : Ticked both 100) × (transfer both 100 100 50 (link ∷ link ∷ []) ≡ some t)
    × (total_sent both 100 t.clients
        ≤ total_sent both 100 (link ∷ link ∷ []) + 100 * min 1000 50 / 1000)
    × (total_got both 100 t.clients
        ≤ total_got both 100 (link ∷ link ∷ []) + 100 * min 1000 50 / 1000)
transfer-within_budget_example =
    transfer-within_budget both 100 100 50 (link ∷ link ∷ []) (omega arith) (omega arith)
