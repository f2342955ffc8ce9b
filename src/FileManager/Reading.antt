-- ===== src/FileManager/Reading.antt =====
-- `readBlock` of src/filemanager.cpp reads the torrent's data as one sequence of bytes.
use uenclient.Common.{
  ℕ, ◌+◌, ◌-◌, ◌*◌, ◌≤◌, ◌≡◌, refl, ap, sym, ◌∙◌, Bool, false, inl, inr, List, [], ◌∷◌, ◌++◌, Bytes,
  length, length-take, length-drop, take, drop, take-append, drop-append_le, drop-append_ge,
  append_assoc, append-nil, take_all, drop-nil, take-min, le_or_lt, ltb, ltb→lt, ==_iff, min, ◌==◌,
  Bool-cases, arith,
}
use uenclient.FileManager.Disk.{Disk}
use uenclient.FileManager.Blocks.{read_files, read_block, image, AllReady}

module _ (disk : Disk) where
  open disk use {File, opens, contents, read_at, read_at_is}

  read_files-none :
      (fs : List (File × ℕ)) (current start : ℕ) (block : Bytes)
      → read_files disk fs current start 0 block ≡ (block, false)
  unfolding read_files
  read_files-none [] current start block = refl
  read_files-none ((f, size) ∷ fs) current start block = refl

  -- What one file gives: the bytes from `pos` on, `len` at most.
  abbrev part : File → ℕ → ℕ → Bytes
  part f pos len = take len (drop pos (contents f))

  module _ (f : File) (pos len : ℕ) where
    chunk-part : read_at f pos (min len (length (contents f) - pos)) ≡ part f pos len
    chunk-part =
        read_at_is f pos (min len (length (contents f) - pos))
        ∙ ap (λ (k : ℕ). take (min len k) (drop pos (contents f)))
            (sym (length-drop pos (contents f)))
        ∙ take-min len (drop pos (contents f))

    part-append :
        (img : Bytes)
        → pos ≤ length (contents f)
        → take len (drop pos (contents f ++ img))
          ≡ part f pos len ++ take (len - (length (contents f) - pos)) img
    part-append img inside =
        ap (take len) (drop-append_le pos (contents f) img inside)
        ∙ take-append len (drop pos (contents f)) img
        ∙ ap (λ (k : ℕ). part f pos len ++ take (len - k) img) (length-drop pos (contents f))

    length-part : length (part f pos len) ≡ min len (length (contents f) - pos)
    length-part =
        length-take len (drop pos (contents f)) ∙ ap (min len) (length-drop pos (contents f))

  abbrev fine : Bytes → Bytes × Bool
  fine x = (x, false)

  abbrev go : File → List (File × ℕ) → ℕ → ℕ → ℕ → Bytes → ℕ → Bytes × Bool
  go f fs current start len block size =
      let chunk : Bytes = read_at f (start - current) (min len (size - (start - current))) in
      read_files disk fs (current + size) (start + length chunk) (len - length chunk)
        (block ++ chunk)

  -- The loop goes on behind the file that has given its part.
  read_files-part :
      (f : File) (fs : List (File × ℕ)) (current start len : ℕ) (block : Bytes)
      → (inside : start - current ≤ length (contents f)) → current ≤ start
      → ((start' len' : ℕ) (block' : Bytes)
          → current + length (contents f) ≤ start'
          → read_files disk fs (current + length (contents f)) start' len' block'
            ≡ fine (
                block'
                ++ take len' (drop (start' - (current + length (contents f))) (image disk fs))))
      → (x : Bytes) → x ≡ part f (start - current) len
      → read_files disk fs
          (current + length (contents f))
          (start + length x)
          (len - length x)
          (block ++ x)
        ≡ fine (block ++ take len (drop (start - current) (contents f ++ image disk fs)))
  read_files-part f fs current start len block inside h later x e =
      let pos : ℕ = start - current in
      let size : ℕ = length (contents f) in
      let count : length x ≡ min len (size - pos) = ap length e ∙ length-part f pos len in
      let split = part-append f pos len (image disk fs) inside in
      let target : fine (block ++ (x ++ take (len - (size - pos)) (image disk fs)))
          ≡ fine (block ++ take len (drop pos (contents f ++ image disk fs))) =
        ap (λ (y : Bytes). fine (block ++ (y ++ take (len - (size - pos)) (image disk fs)))) e
        ∙ ap (λ (y : Bytes). fine (block ++ y)) (sym split) in
      elim (le_or_lt (size - pos) len) [
        | inl more ↦
            let at_end : start + length x - (current + size) ≡ 0 = omega arith in
            let left : len - length x ≡ len - (size - pos) = omega arith in
            later (start + length x) (len - length x) (block ++ x) (omega arith)
            ∙ ap (λ (k : ℕ). fine ((block ++ x) ++ take (len - length x) (drop k (image disk fs))))
                at_end
            ∙ ap (λ (k : ℕ). fine ((block ++ x) ++ take k (image disk fs))) left
            ∙ ap fine (append_assoc block x (take (len - (size - pos)) (image disk fs)))
            ∙ target
        | inr less ↦
            let over : len - length x ≡ 0 = omega arith in
            let none_left : len - (size - pos) ≡ 0 = omega arith in
            ap (λ (k : ℕ). read_files disk fs (current + size) (start + length x) k (block ++ x))
              over
            ∙ read_files-none fs (current + size) (start + length x) (block ++ x)
            ∙ ap (λ (y : Bytes). fine (block ++ y)) (sym (append-nil x))
            ∙ ap (λ (k : ℕ). fine (block ++ (x ++ take k (image disk fs)))) (sym none_left)
            ∙ target
      ]

  read_files-image :
      (fs : List (File × ℕ)) (current start len : ℕ) (block : Bytes)
      → AllReady disk fs
      → current ≤ start
      → read_files disk fs current start len block
        ≡ fine (block ++ take len (drop (start - current) (image disk fs)))
  unfolding read_files
  read_files-image [] current start len block ready h =
      ap fine (sym (append-nil block))
      ∙ ap (λ (x : Bytes). fine (block ++ x))
          (sym (ap (take len) (drop-nil (start - current)) ∙ take_all len [] (omega arith)))
  read_files-image ((f, size) ∷ fs) current start len block ready h = elim (Bool-cases (len == 0)) [
    | inl e ↦
        let nothing : len ≡ 0 = (==_iff len 0).0 e in
        rw e (
          ap fine (sym (append-nil block))
          ∙ ap
              (λ (k : ℕ).
                fine (block ++ take k (drop (start - current) (contents f ++ image disk fs))))
              (sym nothing))
    | inr e ↦ elim (Bool-cases (ltb start (current + size))) [
      | inl within ↦
          let pos_in : start - current ≤ length (contents f) =
            omega (arith, ltb→lt start (current + size) within, ready.1) in
          rw e (
            rw within (
              rw ready.0 (
                ap (λ (k : ℕ). go f fs current start len block k) ready.1
                ∙ read_files-part f fs current start len block pos_in h
                    (λ s l b g. read_files-image fs _ s l b ready.2 g)
                    (read_at f (start - current)
                      (min len (length (contents f) - (start - current))))
                    (chunk-part f (start - current) len))))
      | inr behind ↦
          let past : length (contents f) ≤ start - current = ground arith in
          rw e (
            rw behind (
              read_files-image fs (current + size) start len block ready.2 (ground arith)
              ∙ ap (λ (k : ℕ). fine (block ++ take len (drop k (image disk fs))))
                  (omega (arith, ready.1))
              ∙ ap (λ (x : Bytes). fine (block ++ take len x))
                  (sym (drop-append_ge (start - current) (contents f) (image disk fs) past))))
    ]
  ]

  -- A block is the part of the torrent's data from its place on, across file boundaries, and no
  -- error is reported: for files that open and have the sizes recorded for them.
  pub read_block-image :
      (piece_length : ℕ) (files : List (File × ℕ)) (piece_index offset len : ℕ)
      → AllReady disk files
      → read_block disk piece_length files piece_index offset len
        ≡ (take len (drop (piece_index * piece_length + offset) (image disk files)), false)
  unfolding read_block
  read_block-image piece_length files piece_index offset len ready =
      let start : ℕ = piece_index * piece_length + offset in
      let from_start : start - 0 ≡ start = omega arith in
      read_files-image files 0 start len [] ready (omega arith)
      ∙ ap (λ (k : ℕ). fine (take len (drop k (image disk files)))) from_start
