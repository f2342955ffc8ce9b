-- ===== src/FileManager/Verification.antt =====
-- `verifySinglePiece` and `verifyFileContents` of src/filemanager.cpp.
use uenclient.Common.{
  ℕ, zero, suc, ◌+◌, ◌-◌, ◌*◌, ◌/◌, ◌≤◌, ◌<◌, ◌≡◌, refl, ap, ap₂, sym, ◌∙◌, subst, Bool, true,
  false, ◌&&◌, ◌||◌, inl, inr, List, [], ◌∷◌, ◌++◌, Bytes, same_bytes, length, length-append,
  length-take, length-replicate, length-set, take, drop, set, get_or, replicate, ltb, leb, ◌==◌,
  ==_iff, if◌then◌else◌, Bool-cases, if-holds, arith,
}
use uenclient.PeerWire.Messages.{count_true}
use uenclient.FileManager.Disk.{Disk}
use uenclient.FileManager.Blocks.{read_block, image, AllReady}
use uenclient.FileManager.Reading.{read_block-image}
use uenclient.FileManager.Requests.{
  Manager, Signal, verification_done, verification_progress, say, verify_single_piece, verify_each,
  verify_file_contents, resize,
}

get_or-set-true :
    (bits : List Bool) (i j : ℕ)
    → i < length bits
    → get_or (set bits i true) j false ≡ (if i == j then true else get_or bits j false)
get_or-set-true [] i j h = absurd (omega arith)
get_or-set-true (b ∷ bs) zero zero h = refl
get_or-set-true (b ∷ bs) zero (suc j) h = ground arith
get_or-set-true (b ∷ bs) (suc i) zero h = ground arith
get_or-set-true (b ∷ bs) (suc i) (suc j) h =
    get_or-set-true bs i j (omega arith)
    ∙ ap (λ (c : Bool). if c then true else get_or bs j false) (ground arith)

told {ℓ κ} :
    {A : Type ℓ} {B : Type κ} (f : A → B) (b : Bool) (x y : A) (z : B)
    → f x ≡ z
    → f y ≡ z
    → f (if b then x else y) ≡ z
told f true x y z e g = e
told f false x y z e g = g

replicate-false : (n j : ℕ) → get_or (replicate n false) j false ≡ false
replicate-false zero j = refl
replicate-false (suc n) zero = refl
replicate-false (suc n) (suc j) = replicate-false n j

none_set-take :
    (n m : ℕ) (bits : List Bool) (j : ℕ)
    → count_true bits ≡ 0
    → get_or (take n bits ++ replicate m false) j false ≡ false
none_set-take zero m bits j e = replicate-false m j
none_set-take (suc n) m [] j e = replicate-false m j
none_set-take (suc n) m (true ∷ bs) j e = absurd (omega arith)
none_set-take (suc n) m (false ∷ bs) zero e = refl
none_set-take (suc n) m (false ∷ bs) (suc j) e = none_set-take n m bs j e

-- No bit is set after a resize where none was.
none_set-resize :
    (n : ℕ) (bits : List Bool) (j : ℕ)
    → count_true bits ≡ 0
    → get_or (resize n bits) j false ≡ false
none_set-resize n bits j e = none_set-take n (n - length bits) bits j e

length-resize : (n : ℕ) (bits : List Bool) → length (resize n bits) ≡ n
length-resize n bits = omega (
  arith,
  length-append (take n bits) (replicate (n - length bits) false),
  length-take n bits,
  length-replicate {A = Bool} (n - length bits) false,
)

module _ (disk : Disk) (sha1 : Bytes → Bytes) where
  open disk use {File}

  -- The data of piece `i`, and whether its hash is the one in the torrent file.
  abbrev pub piece_of : Manager File → ℕ → Bytes
  piece_of m i = take m.piece_length (drop (i * m.piece_length) (image disk m.files))

  abbrev pub is_intact : Manager File → ℕ → Bool
  is_intact m i = same_bytes (sha1 (piece_of m i)) (get_or m.sha1s i [])

  -- What verification leaves as it is.
  pub record IsSame (m n : Manager File) : Type 0 where
    pub files_same : n.files ≡ m.files
    pub sha1s_same : n.sha1s ≡ m.sha1s
    pub piece_length_same : n.piece_length ≡ m.piece_length
    pub length_same : length n.verified_pieces ≡ length m.verified_pieces

  -- A piece verifies if and only if its data has its hash; then its bit is set, and nothing else is
  -- changed.
  verify_single_piece_lem :
      (i : ℕ) (m : Manager File)
      → AllReady disk m.files
      → verify_single_piece disk sha1 i m ≡ (
        record m {
          verified_pieces =
              if is_intact m i then set m.verified_pieces i true else m.verified_pieces;
        },
        is_intact m i,
      )
  unfolding verify_single_piece
  verify_single_piece_lem i m ready =
      let place : i * m.piece_length + 0 ≡ i * m.piece_length = omega arith in
      let got : read_block disk m.piece_length m.files i 0 m.piece_length ≡ (piece_of m i, false) =
        read_block-image disk m.piece_length m.files i 0 m.piece_length ready
        ∙ ap (λ (k : ℕ). (take m.piece_length (drop k (image disk m.files)), false)) place in
      elim (Bool-cases (is_intact m i)) [ inl e ↦ rw got (rw e) | inr e ↦ rw got (rw e) ]

  bits_after :
      (i j : ℕ) (bits : List Bool) (intact : ℕ → Bool)
      → i < length bits
      → get_or (if intact i then set bits i true else bits) j false
        ≡ (if i == j then intact j || get_or bits j false else get_or bits j false)
  bits_after i j bits intact h =
      let same : (i == j) ≡ true → intact i ≡ intact j = λ e. ap intact ((==_iff i j).0 e) in
      elim (Bool-cases (intact i)) [
        | inl e ↦ rw e (get_or-set-true bits i j h ∙ ground arith)
        | inr e ↦ rw e (ground arith)
      ]

  -- The bits after the loop over `k` pieces from piece `i` on.
  verify_each-bits :
      (k i count old : ℕ) (m : Manager File)
      → AllReady disk m.files
      → i + k ≤ length m.verified_pieces
      → (j : ℕ)
      → get_or (verify_each disk sha1 k i count old m).verified_pieces j false ≡ (
          if leb i j && ltb j (i + k)
          then is_intact m j || get_or m.verified_pieces j false
          else get_or m.verified_pieces j false)
  unfolding verify_each
  verify_each-bits zero i count old m ready fits j = ground arith
  verify_each-bits (suc k) i count old m ready fits j =
      let bits : List Bool =
        if is_intact m i then set m.verified_pieces i true else m.verified_pieces in
      let n : Manager File = record m { verified_pieces = bits } in
      let percent : ℕ = (i + 1) * 100 / count in
      let size : length bits ≡ length m.verified_pieces =
        if-holds (λ (b : List Bool). length b ≡ length m.verified_pieces) (is_intact m i)
          (λ e. length-set m.verified_pieces i true) λ e. refl in
      let at = bits_after i j m.verified_pieces (is_intact m) (omega arith) in
      let go : Manager File × Bool → Bool = λ r.
        get_or
          (verify_each disk sha1 k (i + 1) count percent (
            if old == percent
            then r.0
            else say (verification_progress percent) r.0)).verified_pieces
          j false in
      let rest : go (n, is_intact m i) ≡ (
          if leb (i + 1) j && ltb j (i + 1 + k)
          then is_intact m j || get_or bits j false
          else get_or bits j false) =
        told
          (λ (x : Manager File).
            get_or (verify_each disk sha1 k (i + 1) count percent x).verified_pieces j false)
          (old == percent) n (say (verification_progress percent) n) _
          (verify_each-bits k (i + 1) count percent n ready (omega arith) j)
          (verify_each-bits k (i + 1) count percent (say (verification_progress percent) n) ready
            (omega arith) j) in
      ap go (verify_single_piece_lem i m ready) ∙ rest ∙ ground arith

  verify_each-length :
      (k i count old : ℕ) (m : Manager File)
      → AllReady disk m.files
      → length (verify_each disk sha1 k i count old m).verified_pieces ≡ length m.verified_pieces
  unfolding verify_each
  verify_each-length zero i count old m ready = refl
  verify_each-length (suc k) i count old m ready =
      let bits : List Bool =
        if is_intact m i then set m.verified_pieces i true else m.verified_pieces in
      let n : Manager File = record m { verified_pieces = bits } in
      let percent : ℕ = (i + 1) * 100 / count in
      let size : length bits ≡ length m.verified_pieces =
        if-holds (λ (b : List Bool). length b ≡ length m.verified_pieces) (is_intact m i)
          (λ e. length-set m.verified_pieces i true) λ e. refl in
      let go : Manager File × Bool → ℕ = λ r.
        length
          (verify_each disk sha1 k (i + 1) count percent (
            if old == percent
            then r.0
            else say (verification_progress percent) r.0)).verified_pieces in
      ap go (verify_single_piece_lem i m ready)
      ∙ told
          (λ (x : Manager File).
            length (verify_each disk sha1 k (i + 1) count percent x).verified_pieces)
          (old == percent) n (say (verification_progress percent) n) _
          (verify_each-length k (i + 1) count percent n ready)
          (verify_each-length k (i + 1) count percent (say (verification_progress percent) n) ready)
      ∙ size

  -- `n` has a bit for each piece of `m`, set where the data has the hash, and has said so last.
  abbrev pub IsVerified : Manager File → Manager File → Type 0
  IsVerified m n =
      (length n.verified_pieces ≡ length m.sha1s)
      × ((i : ℕ) → i < length m.sha1s → get_or n.verified_pieces i false ≡ is_intact m i)
      × ((before : List Signal) × (n.signals ≡ before ++ (verification_done ∷ [])))

  -- A torrent with no verified pieces that is not a new file is verified as a whole: afterwards the
  -- pieces whose data has the hash of the torrent file are the verified ones, all of them and no
  -- others, there is a bit for each piece, and `verificationDone` is the last signal. The files open
  -- and have the sizes recorded for them.
  pub verify_file_contents-is_intact :
      (m : Manager File)
      → AllReady disk m.files
      → count_true m.verified_pieces ≡ 0
      → m.new_file ≡ false
      → IsVerified m (verify_file_contents disk sha1 [] m)
  unfolding verify_file_contents
  verify_file_contents-is_intact m ready none_verified old =
      let count : ℕ = length m.sha1s in
      let sized : Manager File = record m { verified_pieces = resize count m.verified_pieces } in
      let test : (count_true m.verified_pieces == 0) ≡ true = ground arith in
      let room : length sized.verified_pieces ≡ count = length-resize count m.verified_pieces in
      let all : Manager File = verify_each disk sha1 count 0 count 0 sized in
      let taken : verify_file_contents disk sha1 [] m ≡ say verification_done all =
        ap₂ (λ (b c : Bool). say verification_done (if b then if c then sized else all else m)) test
          old in
      subst (IsVerified m) (sym taken) (
        verify_each-length count 0 count 0 sized ready ∙ room,
        λ i h.
            verify_each-bits count 0 count 0 sized ready (omega arith) i
            ∙ inside i h (is_intact m i) (none_set-resize count m.verified_pieces i none_verified),
        (all.signals, refl),
      )
    where
      inside :
          (i : ℕ)
          → i < length m.sha1s
          → (b : Bool) {c : Bool} → c ≡ false
          → (if leb 0 i && ltb i (0 + length m.sha1s) then b || c else c) ≡ b
      inside i h b e = ground arith
