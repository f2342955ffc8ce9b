-- ===== src/PeerWire/Protocol/Sending.antt =====
-- What the methods of src/peerwireclient.cpp write for the outgoing direction of the protocol.
use uenclient.Common.{◌≡◌}
use uenclient.PeerWire.Client.{Client, Slots, ready_to_transfer}

-- Slots of `readyToTransfer` that leave alone what waits to be sent, as the rate controller's does.
abbrev pub KeepsOutgoing : Slots → Type 0
KeepsOutgoing emit = (c : Client) → (emit ready_to_transfer c).outgoing_buffer ≡ c.outgoing_buffer
