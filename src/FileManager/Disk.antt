-- ===== src/FileManager/Disk.antt =====
-- The files that src/filemanager.cpp works on: `QFile` is an interface, with what its documentation
-- says of `open`, `seek` followed by `read`, and `seek` followed by `write`.
use uenclient.Common.{ℕ, ◌+◌, ◌≤◌, ◌≡◌, Bool, ◌++◌, Bytes, length, take, drop}

pub record Disk : Type 1 where
  pub File : Type 0
  pub opens : File → Bool
  pub contents : File → Bytes
  -- The bytes read from a position on, at most a number of them.
  pub read_at : File → ℕ → ℕ → Bytes
  pub read_at_is : (f : File) (pos n : ℕ) → read_at f pos n ≡ take n (drop pos (contents f))
  -- The file after a write at a position, and the number of bytes written.
  pub write_at : File → ℕ → Bytes → File × ℕ
  pub write_at_is :
      (f : File) (pos : ℕ) (x : Bytes)
      → pos + length x ≤ length (contents f)
      → contents (write_at f pos x).0
        ≡ take pos (contents f)
          ++ (take (write_at f pos x).1 x ++ drop (pos + (write_at f pos x).1) (contents f))
  pub write_at-le : (f : File) (pos : ℕ) (x : Bytes) → (write_at f pos x).1 ≤ length x
  pub opens-write_at : (f : File) (pos : ℕ) (x : Bytes) → opens (write_at f pos x).0 ≡ opens f
