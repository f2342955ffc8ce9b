-- ===== src/PeerWire/Words.antt =====
-- 32-bit numbers in network order, src/peerwireclient.cpp. An `int` is kept as its bit pattern.
use uenclient.Common.{
  ℕ, ◌+◌, ◌*◌, ◌/◌, ◌%◌, ◌^◌, ◌<◌, ◌≡◌, Option, none, some, [], ◌∷◌, Bytes, length, get_or, ltb,
  ◌==◌, if◌then◌else◌, arith,
}

abbrev pub word_limit : ℕ
word_limit = 2 ^ 32

-- The shifted bytes share no bit, so that their `|` is their sum.
unfoldable pub from_network_data : ℕ → ℕ → ℕ → ℕ → ℕ
from_network_data b0 b1 b2 b3 = b0 * 2 ^ 24 + b1 * 2 ^ 16 + b2 * 2 ^ 8 + b3

-- `(num & 0xff000000) >> 24`, …, `num & 0xff`.
unfoldable pub to_network_data : ℕ → Bytes
to_network_data num = num / 2 ^ 24 % 256 ∷ num / 2 ^ 16 % 256 ∷ num / 2 ^ 8 % 256 ∷ num % 256 ∷ []

-- `data()[i]` of a byte array: behind the last byte there is a zero, and then nothing to read.
abbrev pub byte_at : Bytes → ℕ → Option ℕ
byte_at b i =
    if ltb i (length b) then some (get_or b i 0) else if i == length b then some 0 else none

abbrev pub bind {ℓ κ} : {A : Type ℓ} {B : Type κ} → Option A → (A → Option B) → Option B
bind none k = none
bind (some a) k = k a

-- `fromNetworkData(&packet.data()[i])`.
unfoldable pub word_at : Bytes → ℕ → Option ℕ
unfolding from_network_data
word_at b i = bind (byte_at b i) λ b0. bind (byte_at b (i + 1)) λ b1.
    bind (byte_at b (i + 2))
      λ b2. bind (byte_at b (i + 3)) λ b3. some (from_network_data b0 b1 b2 b3)

-- A word read back from its four bytes.
pub word_at-to_network_data :
    (num : ℕ) → num < word_limit → word_at (to_network_data num) 0 ≡ some num
unfolding word_at to_network_data
word_at-to_network_data num h = ground arith

pub from_network_data-bytes :
    (num : ℕ)
    → num < word_limit
    → from_network_data (num / 2 ^ 24 % 256) (num / 2 ^ 16 % 256) (num / 2 ^ 8 % 256) (num % 256)
      ≡ num
unfolding from_network_data
from_network_data-bytes num h = omega arith

pub from_network_data-lt :
    (b0 b1 b2 b3 : ℕ)
    → b0 < 256
    → b1 < 256
    → b2 < 256
    → b3 < 256
    → from_network_data b0 b1 b2 b3 < word_limit
unfolding from_network_data
from_network_data-lt b0 b1 b2 b3 h0 h1 h2 h3 = omega arith
