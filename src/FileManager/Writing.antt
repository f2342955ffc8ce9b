-- ===== src/FileManager/Writing.antt =====
-- `writeBlock` of src/filemanager.cpp replaces a part of the torrent's data.
use uenclient.Common.{
  ℕ, ◌+◌, ◌-◌, ◌*◌, ◌≤◌, ◌<◌, ◌≡◌, refl, ap, ap₂, sym, ◌∙◌, subst, true, false, inl, inr, List, [],
  ◌∷◌, ◌++◌, Bytes, length, length-take, length-drop, length-append, take, drop, take-append,
  take-append_le, drop-append_le, drop-append_ge, drop-append_length, take-append_length,
  append_assoc, append-nil, take_all, drop_all, take-append-drop, ltb, ltb→lt, min, ◌==◌,
  Bool-cases, is_empty, arith,
}
use uenclient.FileManager.Disk.{Disk}
use uenclient.FileManager.Blocks.{Stored, read_block, write_files, write_block, image, AllReady}
use uenclient.FileManager.Reading.{read_block-image}

-- The data with the bytes from a position on replaced.
abbrev pub splice : ℕ → Bytes → Bytes → Bytes
splice p bytes whole = take p whole ++ (bytes ++ drop (p + length bytes) whole)

splice-inside :
    (p : ℕ) (b x y : Bytes) → p + length b ≤ length x → splice p b (x ++ y) ≡ splice p b x ++ y
splice-inside p b x y h =
    ap₂ (λ (u v : Bytes). u ++ (b ++ v)) (take-append_le p x y (omega arith))
      (drop-append_le (p + length b) x y h)
    ∙ sym (
        append_assoc (take p x) (b ++ drop (p + length b) x) y
        ∙ ap (λ (u : Bytes). take p x ++ u) (append_assoc b (drop (p + length b) x) y))

splice-behind :
    (p : ℕ) (b x y : Bytes) → length x ≤ p → splice p b (x ++ y) ≡ x ++ splice (p - length x) b y
splice-behind p b x y h =
    let moved : p + length b - length x ≡ p - length x + length b = omega arith in
    ap₂ (λ (u v : Bytes). u ++ (b ++ v))
      (take-append p x y ∙ ap (λ (u : Bytes). u ++ take (p - length x) y) (take_all p x h))
      (drop-append_ge (p + length b) x y (omega arith) ∙ ap (λ (k : ℕ). drop k y) moved)
    ∙ append_assoc x (take (p - length x) y) (b ++ drop (p - length x + length b) y)

splice-across :
    (p : ℕ) (a b x y : Bytes)
    → p + length a ≡ length x
    → splice p (a ++ b) (x ++ y) ≡ splice p a x ++ splice 0 b y
splice-across p a b x y h =
    let behind : p + length (a ++ b) - length x ≡ length b = omega (arith, length-append a b) in
    let over : length x ≤ p + length (a ++ b) = omega (arith, length-append a b) in
    let from_start : length b ≡ 0 + length b = omega arith in
    let at_end : drop (p + length a) x ≡ [] = drop_all (p + length a) x (omega arith) in
    ap₂ (λ (u v : Bytes). u ++ ((a ++ b) ++ v)) (take-append_le p x y (omega arith))
      (drop-append_ge (p + length (a ++ b)) x y over ∙ ap (λ (k : ℕ). drop k y) behind)
    ∙ ap (λ (u : Bytes). take p x ++ u) (append_assoc a b (drop (length b) y))
    ∙ sym (append_assoc (take p x) a (b ++ drop (length b) y))
    ∙ ap (λ (u : Bytes). (take p x ++ u) ++ (b ++ drop (length b) y)) (sym (append-nil a))
    ∙ ap (λ (u : Bytes). (take p x ++ (a ++ u)) ++ (b ++ drop (length b) y)) (sym at_end)
    ∙ ap (λ (k : ℕ). (take p x ++ (a ++ drop (p + length a) x)) ++ (b ++ drop k y)) from_start

take-splice : (p : ℕ) (b x : Bytes) → p ≤ length x → take (length b) (drop p (splice p b x)) ≡ b
take-splice p b x h =
    let rest : Bytes = b ++ drop (p + length b) x in
    let size : length (take p x) ≡ p = omega (arith, length-take p x) in
    ap (λ (k : ℕ). take (length b) (drop k (take p x ++ rest))) (sym size)
    ∙ ap (take (length b)) (drop-append_length (take p x) rest)
    ∙ take-append_length b (drop (p + length b) x)

pub length-splice :
    (p : ℕ) (b x : Bytes) → p + length b ≤ length x → length (splice p b x) ≡ length x
length-splice p b x h = omega (
  arith,
  length-append (take p x) (b ++ drop (p + length b) x),
  length-append b (drop (p + length b) x),
  length-take p x,
  length-drop (p + length b) x,
)

length-empty : (x : Bytes) → is_empty x ≡ true → length x ≡ 0
length-empty x h = ground arith

length-nonempty : (x : Bytes) → is_empty x ≡ false → 0 < length x
length-nonempty x h = ground arith

module _ (disk : Disk) where
  open disk use {File, opens, contents, write_at, write_at_is, opens-write_at}

  -- What a write of all the bytes leaves: the data with them in place, in files that are ready.
  abbrev pub Replaced : ℕ → Bytes → List (File × ℕ) → Stored File → Type 0
  Replaced p b fs w =
      (image disk w.files ≡ splice p b (image disk fs))
      × AllReady disk w.files
      × (w.result ≡ true)
      × (w.failed ≡ false)

  -- A file that takes all that it is given.
  abbrev pub WritesAll : Type 0
  WritesAll = (f : File) (pos : ℕ) (x : Bytes) → (write_at f pos x).1 ≡ length x

  module _ (full : WritesAll) where
    contents-written :
        (f : File) (pos : ℕ) (x : Bytes)
        → pos + length x ≤ length (contents f)
        → contents (write_at f pos x).0 ≡ splice pos x (contents f)
    contents-written f pos x h =
        write_at_is f pos x h
        ∙ ap (λ (n : ℕ). take pos (contents f) ++ (take n x ++ drop (pos + n) (contents f)))
            (full f pos x)
        ∙ ap (λ (y : Bytes). take pos (contents f) ++ (y ++ drop (pos + length x) (contents f)))
            (take_all (length x) x (omega arith))

    written-ready :
        (f : File) (pos : ℕ) (x : Bytes) (fs : List (File × ℕ))
        → pos + length x ≤ length (contents f)
        → opens f ≡ true
        → AllReady disk fs
        → AllReady disk (((write_at f pos x).0, length (contents f)) ∷ fs)
    written-ready f pos x fs h o ready = (
      opens-write_at f pos x ∙ o,
      sym (ap length (contents-written f pos x h) ∙ length-splice pos x (contents f) h),
      ready,
    )

    -- The step at one file, for a loop that does its work in the files behind it.
    write_files-step :
        (f : File) (fs : List (File × ℕ)) (current start : ℕ) (bytes : Bytes)
        → opens f ≡ true
        → AllReady disk fs
        → current ≤ start
        → 0 < length bytes
        → start - current + length bytes ≤ length (contents f ++ image disk fs)
        → ((start' : ℕ) (b : Bytes)
            → current + length (contents f) ≤ start'
            → 0 < length b
            → start' - (current + length (contents f)) + length b ≤ length (image disk fs)
            → Replaced
                (start' - (current + length (contents f)))
                b
                fs
                (write_files disk fs (current + length (contents f)) start' b))
        → Replaced
            (start - current)
            bytes
            ((f, length (contents f)) ∷ fs)
            (write_files disk ((f, length (contents f)) ∷ fs) current start bytes)
    unfolding write_files
    write_files-step f fs current start bytes o ready h some_bytes fits later =
        let size : ℕ = length (contents f) in
        let p : ℕ = start - current in
        let total : length (contents f ++ image disk fs) ≡ size + length (image disk fs) =
          length-append (contents f) (image disk fs) in
        elim (Bool-cases (ltb start (current + size))) [
          | inl within ↦
              let inside : start < current + size = ltb→lt start (current + size) within in
              let k : ℕ = min (length bytes) (size - p) in
              let x : Bytes = take k bytes in
              let count : length x ≡ k = omega (arith, length-take k bytes) in
              let positive : (length x == 0) ≡ false = ground arith in
              let room : p + length x ≤ size = omega arith in
              let written = contents-written f p x room in
              let ready' = written-ready f p x fs room o ready in
              elim (Bool-cases (is_empty (drop (length x) bytes))) [
                | inl whole ↦
                    let none_left = length-empty (drop (length x) bytes) whole in
                    let all : x ≡ bytes =
                      take_all k bytes (omega (arith, length-drop (length x) bytes)) in
                    rw within (
                      rw o (
                        rw (full f p x) (
                          rw positive (
                            rw whole (
                              ap (λ (y : Bytes). y ++ image disk fs) written
                                  ∙ sym (splice-inside p x (contents f) (image disk fs) room)
                                  ∙ ap (λ (y : Bytes). splice p y (contents f ++ image disk fs))
                                      all,
                              ready',
                              refl,
                              refl,
                            )))))
                | inr more ↦
                    let rest : Bytes = drop (length x) bytes in
                    let some_left : 0 < length rest = length-nonempty rest more in
                    let left : length rest ≡ length bytes - length x =
                      length-drop (length x) bytes in
                    let at_start : start + length x - (current + size) ≡ 0 = omega arith in
                    let both : x ++ rest ≡ bytes =
                      ap (λ (j : ℕ). x ++ drop j bytes) count ∙ take-append-drop k bytes in
                    let (same, ready'', r, e) =
                      later (start + length x) rest (omega arith) some_left (omega arith) in
                    rw within (
                      rw o (
                        rw (full f p x) (
                          rw positive (
                            rw more (
                              ap₂ (λ (u v : Bytes). u ++ v) written
                                    (same ∙ ap (λ (j : ℕ). splice j rest (image disk fs)) at_start)
                                  ∙ sym (
                                      splice-across p x rest (contents f) (image disk fs)
                                        (omega arith))
                                  ∙ ap (λ (y : Bytes). splice p y (contents f ++ image disk fs))
                                      both,
                              (ready'.0, ready'.1, ready''),
                              r,
                              e,
                            )))))
              ]
          | inr behind ↦
              let past : size ≤ p = ground arith in
              let (same, ready', r, e) =
                later start bytes (ground arith) some_bytes (omega arith) in
              rw behind (
                ap (λ (y : Bytes). contents f ++ y) same
                    ∙ ap (λ (j : ℕ). contents f ++ splice j bytes (image disk fs)) (omega arith)
                    ∙ sym (splice-behind p bytes (contents f) (image disk fs) past),
                (o, refl, ready'),
                r,
                e,
              )
        ]

    write_files-Replaced :
        (fs : List (File × ℕ)) (current start : ℕ) (bytes : Bytes)
        → AllReady disk fs
        → current ≤ start
        → 0 < length bytes
        → start - current + length bytes ≤ length (image disk fs)
        → Replaced (start - current) bytes fs (write_files disk fs current start bytes)
    write_files-Replaced [] current start bytes ready h some_bytes fits = absurd (omega arith)
    write_files-Replaced ((f, size) ∷ fs) current start bytes ready h some_bytes fits =
        subst
          (λ (k : ℕ).
            Replaced (start - current) bytes ((f, k) ∷ fs)
              (write_files disk ((f, k) ∷ fs) current start bytes))
          (sym ready.1)
          (write_files-step f fs current start bytes ready.0 ready.2 h some_bytes fits
            (λ s b g some fit. write_files-Replaced fs _ s b ready.2 g some fit))

    -- Writing a block replaces its part of the torrent's data and nothing else, across file
    -- boundaries, returns true and reports no error: for a block with at least one byte that lies
    -- within the data, files that open and have the sizes recorded for them, which they keep, and a
    -- disk that takes all the bytes it is given.
    pub write_block-Replaced :
        (piece_length : ℕ) (files : List (File × ℕ)) (piece_index offset : ℕ) (bytes : Bytes)
        → AllReady disk files
        → 0 < length bytes
        → piece_index * piece_length + offset + length bytes ≤ length (image disk files)
        → Replaced
            (piece_index * piece_length + offset)
            bytes
            files
            (write_block disk piece_length files piece_index offset bytes)
    unfolding write_block
    write_block-Replaced piece_length files piece_index offset bytes ready some_bytes fits =
        let start : ℕ = piece_index * piece_length + offset in
        let from_start : start - 0 ≡ start = omega arith in
        subst (λ (k : ℕ). Replaced k bytes files (write_files disk files 0 start bytes)) from_start
          (write_files-Replaced files 0 start bytes ready (omega arith) some_bytes (omega arith))

    -- A block that has been written is read again as it was, under the same conditions.
    pub read_block-write_block :
        (piece_length : ℕ) (files : List (File × ℕ)) (piece_index offset : ℕ) (bytes : Bytes)
        → AllReady disk files
        → 0 < length bytes
        → piece_index * piece_length + offset + length bytes ≤ length (image disk files)
        → read_block disk piece_length
            (write_block disk piece_length files piece_index offset bytes).files
            piece_index
            offset
            (length bytes)
          ≡ (bytes, false)
    read_block-write_block piece_length files piece_index offset bytes ready some_bytes fits =
        let start : ℕ = piece_index * piece_length + offset in
        let (same, ready', r, e) =
          write_block-Replaced piece_length files piece_index offset bytes ready some_bytes fits in
        read_block-image disk piece_length _ piece_index offset (length bytes) ready'
        ∙ ap (λ (y : Bytes). (take (length bytes) (drop start y), false)) same
        ∙ ap (λ (y : Bytes). (y, false)) (take-splice start bytes (image disk files) (omega arith))
