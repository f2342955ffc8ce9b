-- ===== src/PeerWire/Protocol/Receiving/Sequence.antt =====
-- A sequence of messages is received one by one, in order, and read to its last byte.
use uenclient.Common.{ℕ, suc, ◌≡◌, ap, none, [], ◌∷◌, Bytes, length}
use uenclient.PeerWire.Client.{Client, Slots, Signal}
use uenclient.PeerWire.Incoming.{Flow, returned, packets, mark_bytes}
use uenclient.PeerWire.Incoming
use uenclient.PeerWire.Protocol.Framing.{with_buffer}

-- Slots that leave the incoming buffer alone: none of them reads from the socket or the client.
abbrev pub KeepsBuffer : Slots → Type 0
KeepsBuffer emit = (g : Signal) (c : Client) → (emit g c).incoming_buffer ≡ c.incoming_buffer

settle :
    (d : Client) (rest : Bytes)
    → d.incoming_buffer ≡ rest
    → record d { next_packet_length = none }
      ≡ with_buffer rest (record d { next_packet_length = none })
settle d rest e = ap (λ (x : Bytes). record d { incoming_buffer = x; next_packet_length = none }) e

module _ (emit : Slots) (keeps : KeepsBuffer emit) where
  abbrev more : ℕ → Client → Flow
  more f d = elim d.incoming_buffer [ [] ↦ returned d | b ∷ bs ↦ packets emit f d ]

  -- From the packets on.
  abbrev from_packets : Client → Flow
  from_packets k = packets emit (suc (length k.incoming_buffer)) k
