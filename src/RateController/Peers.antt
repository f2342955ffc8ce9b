-- ===== src/RateController/Peers.antt =====
-- The peer wire client of src/peerwireclient.cpp is a socket as the rate controller of
-- src/ratecontroller.cpp wants it: what `readFromSocket` and `writeToSocket` promise, they keep.
use uenclient.Common.{
  ℕ, zero, suc, ◌+◌, ◌-◌, ◌≤◌, ◌≡◌, refl, ap, Bool, inl, inr, Option, none, some, Option-cases,
  Bytes, ◌++◌, length, is_empty, ltb, min, Bool-cases, ℤ, pos, arith, [],
}
use uenclient.PeerWire.Client.{Client, Slots}
use uenclient.PeerWire.Incoming.{Flow, proceed, returned, closed, fault, out_of_fuel}
use uenclient.PeerWire.Transfer.{
  Written, write_to_socket, read_turns, read_from_socket, can_transfer_more,
}
use uenclient.PeerWire.Transfer.Stream.{Sent, write_to_socket-Sent}
use uenclient.RateController.Sockets.{Sockets, count}

-- A client with the bytes that it has moved, and what is known of its socket.
pub record Link : Type 0 where
  pub client : Client
  pub available : ℕ
  pub unsent : ℕ
  pub is_connected : Bool
  pub got : ℕ
  pub sent : ℕ

-- The client that is left when `readFromSocket` returns.
abbrev settled : Client → Flow → Client
settled c (proceed d) = d
settled c (returned d) = d
settled c (closed d) = d
settled c fault = c
settled c out_of_fuel = c

counted_le : (n : ℕ) (c : Client) (w : Written) → Sent n [] c w → count w.result ≤ n
counted_le n c w s = elim s.counted [
  | inl e ↦ omega (arith, ap count e, s.at_most)
  | inr e ↦ omega (arith, ap count (e.0))
]

module _ (emit : Slots) (socket_write : ℕ → Bytes → Option ℕ) (socket_read : ℕ → ℕ → Bytes)
    (takes_offered : (i : ℕ) (o : Bytes) (n : ℕ) → socket_write i o ≡ some n → n ≤ length o)
    (gives_asked : (i n : ℕ) → length (socket_read i n) ≤ n) where
  abbrev written : Link → Option Written → ℤ × Link
  written l none = (pos 0, l)
  written l (some w) = (w.result, record l { client = w.after; sent = l.sent + count w.result })

  unfoldable pub write_link : ℕ → Link → ℤ × Link
  write_link n l = written l (write_to_socket socket_write n l.client)

  unfoldable pub read_link : ℕ → Link → ℕ × Link
  read_link n l =
      let (flow, total) = read_from_socket socket_read emit n l.client in
      (total, record l { client = settled l.client flow; got = l.got + total })

  read_turns-le :
      (f bytes total : ℕ) (c : Client)
      → total ≤ bytes
      → (read_turns socket_read f bytes total c).1 ≤ bytes
  unfolding read_turns
  read_turns-le zero bytes total c h = h
  read_turns-le (suc f) bytes total c h =
      let x : Bytes = socket_read f (min 1024 (bytes - total)) in
      let asked = gives_asked f (min 1024 (bytes - total)) in
      let d : Client = record c { incoming_buffer = c.incoming_buffer ++ x } in
      let rest = read_turns-le f bytes (total + length x) d (omega arith) in
      elim (Bool-cases (is_empty x)) [
        | inl e ↦ rw e h
        | inr e ↦ elim (Bool-cases (ltb (total + length x) bytes)) [
          | inl more ↦ rw (e, more) rest
          | inr over ↦ rw (e, over) (omega arith)
        ]
      ]

  read_from_socket-total :
      (n : ℕ) (c : Client)
      → (read_from_socket socket_read emit n c).1 ≡ (read_turns socket_read (suc n) n 0 c).1
  unfolding read_from_socket
  read_from_socket-total n c = elim (Bool-cases (ltb 0 (read_turns socket_read (suc n) n 0 c).1)) [
    | inl e ↦ rw e
    | inr e ↦ rw e
  ]

  pub read_link-le : (n : ℕ) (l : Link) → (read_link n l).0 ≤ n
  unfolding read_link
  read_link-le n l =
      omega
        (arith, read_from_socket-total n l.client, read_turns-le (suc n) n 0 l.client (omega arith))

  pub write_link-le : (n : ℕ) (l : Link) → count (write_link n l).0 ≤ n
  unfolding write_link
  write_link-le n l =
      let (w, found, sent) = write_to_socket-Sent socket_write takes_offered n l.client in
      rw found (counted_le n l.client w sent)

  pub write_link-moved :
      (n : ℕ) (l : Link)
      → ((write_link n l).1.got ≡ l.got)
        × ((write_link n l).1.sent ≡ l.sent + count (write_link n l).0)
  unfolding write_link
  write_link-moved n l = elim (Option-cases (write_to_socket socket_write n l.client)) [
    | inl e ↦ rw e (refl, omega arith)
    | inr (w, e) ↦ rw e (refl, refl)
  ]

  pub read_link-moved :
      (n : ℕ) (l : Link)
      → ((read_link n l).1.got ≡ l.got + (read_link n l).0) × ((read_link n l).1.sent ≡ l.sent)
  unfolding read_link
  read_link-moved n l = (refl, refl)

  abbrev pub links : Sockets
  links = record {
    Client = Link;
    can_transfer_more = λ l. can_transfer_more l.available 0 l.client;
    connected = λ l. l.is_connected;
    socket_bytes_available = λ l. l.available;
    bytes_to_write = λ l. l.unsent;
    read_from_socket = read_link;
    write_to_socket = write_link;
    got = λ l. l.got;
    sent = λ l. l.sent;
    read-le = read_link-le;
    write-le = write_link-le;
    got-read = λ n l. (read_link-moved n l).0;
    sent-read = λ n l. (read_link-moved n l).1;
    got-write = λ n l. (write_link-moved n l).0;
    sent-write = λ n l. (write_link-moved n l).1;
  }
