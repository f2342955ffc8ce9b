-- ===== src/FileManager/Blocks.antt =====
-- `readBlock` and `writeBlock` of src/filemanager.cpp, over the files with their sizes.
use uenclient.Common.{
  ℕ, ◌+◌, ◌-◌, ◌*◌, ◌≡◌, Bool, true, false, not, List, [], ◌∷◌, ◌++◌, Bytes, length, take, drop,
  is_empty, ltb, min, ◌==◌, if◌then◌else◌,
}
use uenclient.FileManager.Disk.{Disk}

-- What `writeBlock` leaves: the files, what it returns, and whether it has emitted `error()`.
pub record Stored {ℓ} (File : Type ℓ) : Type ℓ where
  pub files : List (File × ℕ)
  pub result : Bool
  pub failed : Bool

module _ (disk : Disk) where
  open disk use {File, opens, contents, read_at, write_at}

  -- The loop of `readBlock`: `current` is `currentIndex`, `start` is `startReadIndex`, and the second
  -- result says whether `error()` was emitted. A seek to before the start of a file fails and leaves
  -- its position at 0, as the subtraction does. `quit` is false.
  unfoldable pub read_files : List (File × ℕ) → ℕ → ℕ → ℕ → Bytes → Bytes × Bool
  read_files [] current start len block = (block, false)
  read_files ((f, size) ∷ fs) current start len block =
      let chunk : Bytes = read_at f (start - current) (min len (size - (start - current))) in
      let after_read =
        read_files fs (current + size) (start + length chunk) (len - length chunk)
          (block ++ chunk) in
      let skipped = read_files fs (current + size) start len block in
      if len == 0
      then (block, false)
      else if ltb start (current + size)
      then if opens f then after_read else (block, true)
      else skipped

  -- The products are in 64 bits, as in the source.
  unfoldable pub read_block : ℕ → List (File × ℕ) → ℕ → ℕ → ℕ → Bytes × Bool
  unfolding read_files
  read_block piece_length files piece_index offset len =
      read_files files 0 (piece_index * piece_length + offset) len []

  abbrev pub with_file : File × ℕ → Stored File → Stored File
  with_file f s = record s { files = f ∷ s.files }

  -- The loop of `writeBlock`, with the bytes that are still to be written.
  unfoldable pub write_files : List (File × ℕ) → ℕ → ℕ → Bytes → Stored File
  write_files [] current start bytes = record { files = []; result = true; failed = false }
  write_files ((f, size) ∷ fs) current start bytes =
      let pos : ℕ = start - current in
      let (f', n) = write_at f pos (take (min (length bytes) (size - pos)) bytes) in
      let rest : Bytes = drop n bytes in
      let after_write = with_file (f', size) (write_files fs (current + size) (start + n) rest) in
      let skipped = with_file (f, size) (write_files fs (current + size) start bytes) in
      if ltb start (current + size)
      then if not (opens f)
        then record { files = (f, size) ∷ fs; result = true; failed = true }
        else if n == 0
        then record { files = (f', size) ∷ fs; result = false; failed = true }
        else if is_empty rest
        then record { files = (f', size) ∷ fs; result = true; failed = false }
        else after_write
      else skipped

  unfoldable pub write_block : ℕ → List (File × ℕ) → ℕ → ℕ → Bytes → Stored File
  unfolding write_files
  write_block piece_length files piece_index offset bytes =
      write_files files 0 (piece_index * piece_length + offset) bytes

  -- The files' contents one behind the other: the torrent's data as one sequence of bytes.
  abbrev pub image : List (File × ℕ) → Bytes
  image [] = []
  image ((f, size) ∷ fs) = contents f ++ image fs

  -- Every file opens, and has the size that was recorded for it.
  abbrev pub AllReady : List (File × ℕ) → Type 0
  AllReady [] = Unit
  AllReady ((f, size) ∷ fs) = (opens f ≡ true) × (size ≡ length (contents f)) × AllReady fs
