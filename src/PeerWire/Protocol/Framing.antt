-- ===== src/PeerWire/Protocol/Framing.antt =====
-- A packet on the wire is cut out of the buffer whole, and handed to `dispatch`.
use uenclient.Common.{
  ℕ, suc, ◌≤◌, ◌≡◌, ap, sym, ◌∙◌, true, false, none, some, ◌++◌, Bytes, length, length-append, take,
  drop, take-append_length, drop-append_length, ltb, ◌==◌, ==_iff, arith,
}
use uenclient.PeerWire.Words.{to_network_data, from_network_data-bytes}
use uenclient.PeerWire.Client.{Client, Slots}
use uenclient.PeerWire.Incoming.{
  proceed, next, packet_length, packet_body, turn, dispatch, max_packet_length,
}

-- The client with this buffer and no known length.
abbrev pub with_buffer : Bytes → Client → Client
with_buffer b c = record c { incoming_buffer = b; next_packet_length = none }

abbrev pub announced : ℕ → Bytes → Client → Client
announced n b c = record c { incoming_buffer = b; next_packet_length = some n }

module _ (emit : Slots) (c : Client) where
  packet_length-wire :
      (n : ℕ) (b : Bytes)
      → n ≤ max_packet_length
      → packet_length emit (with_buffer (to_network_data n ++ b) c) ≡ proceed (announced n b c)
  unfolding packet_length to_network_data
  packet_length-wire n b h = rw (from_network_data-bytes n (omega arith)) (ground arith)

  packet_body-wire :
      (n : ℕ) (p rest : Bytes)
      → length p ≡ suc n
      → packet_body emit (announced (suc n) (p ++ rest) c)
        ≡ next
            (dispatch emit p (announced (suc n) rest c))
            (λ d. proceed (record d { next_packet_length = none }))
  unfolding packet_body
  packet_body-wire n p rest h =
      let cut : take (suc n) (p ++ rest) ≡ p =
        ap (λ (k : ℕ). take k (p ++ rest)) (sym h) ∙ take-append_length p rest in
      let left : drop (suc n) (p ++ rest) ≡ rest =
        ap (λ (k : ℕ). drop k (p ++ rest)) (sym h) ∙ drop-append_length p rest in
      let long : ltb (length (p ++ rest)) (suc n) ≡ false = ground (arith, length-append p rest) in
      let exact : (length p == suc n) ≡ true = (==_iff (length p) (suc n)).1 h in
      let positive : (suc n == 0) ≡ false = ground arith in
      rw (positive, long, cut, exact) (rw left)

  pub turn-wire :
      (n : ℕ) (p rest : Bytes)
      → length p ≡ suc n
      → suc n ≤ max_packet_length
      → turn emit (with_buffer (to_network_data (suc n) ++ (p ++ rest)) c)
        ≡ next
            (dispatch emit p (announced (suc n) rest c))
            (λ d. proceed (record d { next_packet_length = none }))
  unfolding turn
  turn-wire n p rest h l =
      ap (λ o. next o (packet_body emit)) (packet_length-wire (suc n) (p ++ rest) l)
      ∙ packet_body-wire n p rest h
