-- ===== src/FileManager/Requests.antt =====
-- The requests to the file manager and the cycle of its thread, src/filemanager.cpp. The mutex makes
-- each call one step.
use uenclient.Common.{
  ℕ, zero, suc, ◌+◌, ◌-◌, ◌*◌, ◌/◌, ◌%◌, Bool, true, false, List, [], ◌∷◌, ◌++◌, Bytes, same_bytes,
  length, take, set, get_or, replicate, ◌==◌, if◌then◌else◌,
}
use uenclient.PeerWire.Messages.{count_true}
use uenclient.FileManager.Disk.{Disk}
use uenclient.FileManager.Blocks.{Stored, read_block, write_block}

pub record ReadRequest : Type 0 where
  pub id : ℕ
  pub piece_index : ℕ
  pub offset : ℕ
  pub length_of : ℕ

pub record WriteRequest : Type 0 where
  pub piece_index : ℕ
  pub offset : ℕ
  pub bytes : Bytes

-- The signals of the class.
pub data Signal : Type 0 where
  data_read : ℕ → ℕ → ℕ → Bytes → Signal
  error : Signal
  verification_progress : ℕ → Signal
  verification_done : Signal
  piece_verified : ℕ → Bool → Signal

-- `woke_up` is set while a call of `wakeUp` waits in the event loop; `signals` is what has been
-- emitted.
pub record Manager {ℓ} (File : Type ℓ) : Type ℓ where
  pub files : List (File × ℕ)
  pub piece_length : ℕ
  pub total_length : ℕ
  pub sha1s : List Bytes
  pub new_file : Bool
  pub read_id : ℕ
  pub read_requests : List ReadRequest
  pub write_requests : List WriteRequest
  pub pending_verifications : List ℕ
  pub start_verification : Bool
  pub woke_up : Bool
  pub verified_pieces : List Bool
  pub signals : List Signal

-- `QBitArray::resize`.
abbrev pub resize : ℕ → List Bool → List Bool
resize n bits = take n bits ++ replicate (n - length bits) false

module _ {ℓ} {File : Type ℓ} where
  abbrev pub say : Signal → Manager File → Manager File
  say s m = record m { signals = m.signals ++ (s ∷ []) }

  -- `read`, with the number that it returns.
  unfoldable pub read : ℕ → ℕ → ℕ → Manager File → ℕ × Manager File
  read piece_index offset len m =
      let request : ReadRequest = record {
        id = m.read_id;
        piece_index = piece_index;
        offset = offset;
        length_of = len;
      } in
      (
        m.read_id,
        record m {
          read_id = m.read_id + 1;
          read_requests = m.read_requests ++ (request ∷ []);
          woke_up = true;
        },
      )

  unfoldable pub write : ℕ → ℕ → Bytes → Manager File → Manager File
  write piece_index offset bytes m =
      let request : WriteRequest = record {
        piece_index = piece_index;
        offset = offset;
        bytes = bytes;
      } in
      record m { write_requests = m.write_requests ++ (request ∷ []); woke_up = true }

  unfoldable pub verify_piece : ℕ → Manager File → Manager File
  verify_piece i m = record m {
    pending_verifications = m.pending_verifications ++ (i ∷ []);
    start_verification = true;
    woke_up = true;
  }

  unfoldable pub wake_up : Manager File → Manager File
  wake_up m = record m { woke_up = false }

  unfoldable pub start_data_verification : Manager File → Manager File
  start_data_verification m = record m { start_verification = true }

  unfoldable pub set_completed_pieces : List Bool → Manager File → Manager File
  set_completed_pieces pieces m = record m { verified_pieces = pieces }

  -- The length of a piece, where the last one may be shorter; the last is short by all its bytes if
  -- the total length is a multiple of the piece length.
  unfoldable pub piece_length_at : ℕ → Manager File → ℕ
  piece_length_at i m =
      if length m.sha1s == i + 1 then m.total_length % m.piece_length else m.piece_length

module _ (disk : Disk) (sha1 : Bytes → Bytes) where
  open disk use {File}

  -- `readBlock` for a request, and its `dataRead`.
  unfoldable pub answer : ReadRequest → Manager File → Manager File
  answer r m =
      let (block, failed) =
        read_block disk m.piece_length m.files r.piece_index r.offset r.length_of in
      say (data_read r.id r.piece_index r.offset block) (if failed then say error m else m)

  abbrev pub answer_all : List ReadRequest → Manager File → Manager File
  answer_all [] m = m
  answer_all (r ∷ rs) m = answer_all rs (answer r m)

  -- `writeBlock` for a request: with `quit` its loop does not run at all.
  unfoldable pub store : Bool → WriteRequest → Manager File → Manager File
  store true r m = m
  store false r m =
      let w : Stored File =
        write_block disk m.piece_length m.files r.piece_index r.offset r.bytes in
      let n : Manager File = record m { files = w.files } in if w.failed then say error n else n

  abbrev pub store_all : Bool → List WriteRequest → Manager File → Manager File
  store_all quit [] m = m
  store_all quit (r ∷ rs) m = store_all quit rs (store quit r m)

  -- `verifySinglePiece`: its result is the second component.
  unfoldable pub verify_single_piece : ℕ → Manager File → Manager File × Bool
  unfolding same_bytes
  verify_single_piece i m =
      let (block, failed) = read_block disk m.piece_length m.files i 0 m.piece_length in
      let n : Manager File = if failed then say error m else m in
      if same_bytes (sha1 block) (get_or m.sha1s i [])
      then (record n { verified_pieces = set n.verified_pieces i true }, true)
      else (n, false)

  -- The loop over all pieces, `k` of them from piece `i` on, with `oldPercent`.
  unfoldable pub verify_each : ℕ → ℕ → ℕ → ℕ → Manager File → Manager File
  verify_each zero i count old m = m
  verify_each (suc k) i count old m =
      let n : Manager File = (verify_single_piece i m).0 in
      let percent : ℕ = (i + 1) * 100 / count in
      verify_each k (i + 1) count percent
        (if old == percent then n else say (verification_progress percent) n)

  abbrev pub verify_pending : List ℕ → Manager File → Manager File
  verify_pending [] m = m
  verify_pending (i ∷ is) m =
      let (n, ok) = verify_single_piece i m in verify_pending is (say (piece_verified i ok) n)

  -- `verifyFileContents`, with `newPendingVerificationRequests`.
  unfoldable pub verify_file_contents : List ℕ → Manager File → Manager File
  verify_file_contents [] m =
      let count : ℕ = length m.sha1s in
      let sized : Manager File = record m { verified_pieces = resize count m.verified_pieces } in
      let all : Manager File = verify_each count 0 count 0 sized in
      say verification_done
        (if count_true m.verified_pieces == 0 then if m.new_file then sized else all else m)
  verify_file_contents (i ∷ is) m = verify_pending (i ∷ is) m

  -- The parts of the loop of `run`, when `quit` is not set, …
  unfoldable pub serve_reads : Manager File → Manager File
  serve_reads m = answer_all m.read_requests (record m { read_requests = [] })

  unfoldable pub serve_writes : Manager File → Manager File
  serve_writes m = store_all false m.write_requests (record m { write_requests = [] })

  unfoldable pub serve_verification : Manager File → Manager File
  serve_verification m =
      let n : Manager File =
        verify_file_contents m.pending_verifications (record m { pending_verifications = [] }) in
      if m.start_verification then record n { start_verification = false } else m

  -- … and its body.
  unfoldable pub cycle : Manager File → Manager File
  cycle m = serve_verification (serve_writes (serve_reads m))

  -- What `run` does when its loop has ended, which is when `quit` is set.
  unfoldable pub finish : Manager File → Manager File
  finish m = store_all true m.write_requests (record m { write_requests = [] })
