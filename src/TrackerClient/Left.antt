-- ===== src/TrackerClient/Left.antt =====
-- The bytes that src/trackerclient.cpp says are left to download.
use uenclient.Common.{ℕ, ◌-◌, ◌^◌, ◌≤◌, ◌<◌, ◌≡◌, pos, arith}
use uenclient.TrackerClient.Query.{left_of}

-- The tracker is told what is left as long as that is less than 2 ^ 31 bytes; from there to 2 ^ 32
-- it is told that nothing is left.
pub left_of_lem :
    (total downloaded : ℕ)
    → downloaded ≤ total
    → (total - downloaded < 2 ^ 31
        → left_of (pos total) (pos downloaded) ≡ pos (total - downloaded))
      × (2 ^ 31 ≤ total - downloaded
          → total - downloaded < 2 ^ 32
          → left_of (pos total) (pos downloaded) ≡ pos 0)
unfolding left_of
left_of_lem total downloaded h = (λ k. ground arith, λ k l. ground arith)
