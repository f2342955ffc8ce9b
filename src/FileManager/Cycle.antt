-- ===== src/FileManager/Cycle.antt =====
-- One round of the loop of `run`, and its end, src/filemanager.cpp.
use uenclient.Common.{
  ℕ, ◌+◌, ◌*◌, ◌≤◌, ◌<◌, ◌≡◌, refl, ap, sym, ◌∙◌, subst, Bool, false, List, [], ◌∷◌, ◌++◌,
  append_assoc, append-nil, map, Bytes, length, take, drop, if◌then◌else◌, All,
}
use uenclient.FileManager.Disk.{Disk}
use uenclient.FileManager.Blocks.{Stored, write_block, image, AllReady}
use uenclient.FileManager.Reading.{read_block-image}
use uenclient.FileManager.Writing.{splice, length-splice, WritesAll, write_block-Replaced}
use uenclient.FileManager.Requests.{
  ReadRequest, WriteRequest, Signal, data_read, Manager, say, answer, answer_all, store, store_all,
  verify_file_contents, serve_reads, serve_writes, serve_verification, cycle,
}

-- The data with the blocks of the requests in place, one after the other.
abbrev pub spliced : ℕ → List WriteRequest → Bytes → Bytes
spliced piece_length [] whole = whole
spliced piece_length (r ∷ rs) whole =
    spliced piece_length rs (splice (r.piece_index * piece_length + r.offset) r.bytes whole)

-- A request with at least one byte, all of them within `size` bytes of data.
abbrev pub Fits : ℕ → ℕ → WriteRequest → Type 0
Fits piece_length size r =
    (0 < length r.bytes) × (r.piece_index * piece_length + r.offset + length r.bytes ≤ size)

module _ (disk : Disk) (sha1 : Bytes → Bytes) where
  open disk use {File}

  -- The `dataRead` for a request.
  abbrev pub reply : Manager File → ReadRequest → Signal
  reply m r =
      data_read r.id r.piece_index r.offset
        (take r.length_of (drop (r.piece_index * m.piece_length + r.offset) (image disk m.files)))

  answer_lem :
      (r : ReadRequest) (m : Manager File)
      → AllReady disk m.files
      → answer disk sha1 r m ≡ say (reply m r) m
  unfolding answer
  answer_lem r m ready =
      ap
        (λ (o : Bytes × Bool).
          say (data_read r.id r.piece_index r.offset o.0) (if o.1 then say Signal.error m else m))
        (read_block-image disk m.piece_length m.files r.piece_index r.offset r.length_of ready)

  answer_all_lem :
      (rs : List ReadRequest) (m : Manager File)
      → AllReady disk m.files
      → answer_all disk sha1 rs m ≡ record m { signals = m.signals ++ map (reply m) rs }
  answer_all_lem [] m ready =
      ap (λ (s : List Signal). record m { signals = s }) (sym (append-nil m.signals))
  answer_all_lem (r ∷ rs) m ready =
      ap (answer_all disk sha1 rs) (answer_lem r m ready)
      ∙ answer_all_lem rs (say (reply m r) m) ready
      ∙ ap (λ (s : List Signal). record m { signals = s })
          (append_assoc m.signals (reply m r ∷ []) (map (reply m) rs))

  -- What storing leaves: the data with the blocks in place, in files that are ready, and all else.
  pub record IsStored (m : Manager File) (rs : List WriteRequest) (n : Manager File) : Type 0 where
    pub stored : image disk n.files ≡ spliced m.piece_length rs (image disk m.files)
    pub ready : AllReady disk n.files
    pub rest : n ≡ record m { files = n.files }

  module _ (full : WritesAll disk) where
    store_lem :
        (r : WriteRequest) (m : Manager File)
        → AllReady disk m.files
        → Fits m.piece_length (length (image disk m.files)) r
        → IsStored m (r ∷ []) (store disk sha1 false r m)
    unfolding store
    store_lem r m ready fits =
        let w : Stored File =
          write_block disk m.piece_length m.files r.piece_index r.offset r.bytes in
        let (same, ready', result, failed) =
          write_block-Replaced disk full m.piece_length m.files r.piece_index r.offset r.bytes ready
            fits.0 fits.1 in
        rw failed (record { stored = same; ready = ready'; rest = refl })

    store_all_lem :
        (rs : List WriteRequest) (m : Manager File)
        → AllReady disk m.files
        → All (Fits m.piece_length (length (image disk m.files))) rs
        → IsStored m rs (store_all disk sha1 false rs m)
    store_all_lem [] m ready fits = record { stored = refl; ready = ready; rest = refl }
    store_all_lem (r ∷ rs) m ready fits =
        let first = store_lem r m ready fits.0 in
        let n : Manager File = record m { files = (store disk sha1 false r m).files } in
        let size : length (image disk m.files) ≡ length (image disk n.files) = sym (
          ap length first.stored
          ∙ length-splice (r.piece_index * m.piece_length + r.offset) r.bytes (image disk m.files)
              fits.0.1) in
        let others =
          store_all_lem rs n first.ready
            (subst (λ (k : ℕ). All (Fits m.piece_length k) rs) size fits.1) in
        let stored : IsStored m (r ∷ rs) (store_all disk sha1 false rs n) = record {
          stored = others.stored ∙ ap (spliced m.piece_length rs) first.stored;
          ready = others.ready;
          rest = others.rest;
        } in
        subst (λ (x : Manager File). IsStored m (r ∷ rs) (store_all disk sha1 false rs x))
          (sym first.rest) stored

    -- After the reads.
    abbrev answered : Manager File → Manager File
    answered m = record m {
      read_requests = [];
      signals = m.signals ++ map (reply m) m.read_requests;
    }

    serve_reads_lem :
        (m : Manager File) → AllReady disk m.files → serve_reads disk sha1 m ≡ answered m
    unfolding serve_reads
    serve_reads_lem m ready = answer_all_lem m.read_requests (record m { read_requests = [] }) ready

    serve_writes_lem :
        (m : Manager File)
        → AllReady disk m.files
        → All (Fits m.piece_length (length (image disk m.files))) m.write_requests
        → IsStored (record m { write_requests = [] }) m.write_requests (serve_writes disk sha1 m)
    unfolding serve_writes
    serve_writes_lem m ready fits =
        store_all_lem m.write_requests (record m { write_requests = [] }) ready fits

    serve_verification_lem :
        (m : Manager File) → m.start_verification ≡ false → serve_verification disk sha1 m ≡ m
    unfolding serve_verification
    serve_verification_lem m quiet =
        ap
          (λ (b : Bool).
            if b
            then record (verify_file_contents disk sha1 m.pending_verifications
                (record m { pending_verifications = [] })) { start_verification = false }
            else m)
          quiet

    -- One round of the loop, when no verification is asked for: every read request is answered, in
    -- order, with the part of the data that it names as it was before the writes; then every write
    -- request is stored, in order; no error is reported, and no request is left. The files open and
    -- have the sizes recorded for them, the blocks to write lie within the data and are not empty,
    -- and the disk takes all the bytes it is given.
    pub cycle_lem :
        (m : Manager File)
        → AllReady disk m.files
        → All (Fits m.piece_length (length (image disk m.files))) m.write_requests
        → m.start_verification ≡ false
        → let n = cycle disk sha1 m in
          (n.signals ≡ m.signals ++ map (reply m) m.read_requests)
          × (image disk n.files ≡ spliced m.piece_length m.write_requests (image disk m.files))
          × (n.read_requests ≡ [])
          × (n.write_requests ≡ [])
    unfolding cycle
    cycle_lem m ready fits quiet =
        let s = serve_writes_lem (answered m) ready fits in
        let w : Manager File = serve_writes disk sha1 (answered m) in
        let still : w.start_verification ≡ false =
          ap (λ (x : Manager File). x.start_verification) s.rest ∙ quiet in
        let all : cycle disk sha1 m ≡ w =
          ap (λ (x : Manager File). serve_verification disk sha1 (serve_writes disk sha1 x))
            (serve_reads_lem m ready)
          ∙ serve_verification_lem w still in
        (
          ap (λ (x : Manager File). x.signals) (all ∙ s.rest),
          ap (λ (x : Manager File). image disk x.files) all ∙ s.stored,
          ap (λ (x : Manager File). x.read_requests) (all ∙ s.rest),
          ap (λ (x : Manager File). x.write_requests) (all ∙ s.rest),
        )
