-- ===== src/RateController/Sockets.antt =====
-- What the rate controller of src/ratecontroller.cpp asks of a `PeerWireClient`, with what
-- `readFromSocket` and `writeToSocket` promise it.
use uenclient.Common.{ℕ, ◌+◌, ◌≤◌, ◌≡◌, Bool, ℤ, pos, negsuc}

-- The bytes that a result of `writeToSocket` stands for: -1 is an error.
abbrev pub count : ℤ → ℕ
count (pos n) = n
count (negsuc n) = 0

-- `got` and `sent` are the bytes that a client has moved so far.
pub record Sockets : Type 1 where
  pub Client : Type 0
  pub can_transfer_more : Client → Bool
  pub connected : Client → Bool
  pub socket_bytes_available : Client → ℕ
  pub bytes_to_write : Client → ℕ
  pub read_from_socket : ℕ → Client → ℕ × Client
  pub write_to_socket : ℕ → Client → ℤ × Client
  pub got : Client → ℕ
  pub sent : Client → ℕ
  pub read-le : (n : ℕ) (c : Client) → (read_from_socket n c).0 ≤ n
  pub write-le : (n : ℕ) (c : Client) → count (write_to_socket n c).0 ≤ n
  pub got-read :
      (n : ℕ) (c : Client) → got (read_from_socket n c).1 ≡ got c + (read_from_socket n c).0
  pub sent-read : (n : ℕ) (c : Client) → sent (read_from_socket n c).1 ≡ sent c
  pub got-write : (n : ℕ) (c : Client) → got (write_to_socket n c).1 ≡ got c
  pub sent-write :
      (n : ℕ) (c : Client) → sent (write_to_socket n c).1 ≡ sent c + count (write_to_socket n c).0
