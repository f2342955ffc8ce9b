-- ===== src/TorrentClient/Blocks/Requests.antt =====
-- The requests of `requestBlocks` of src/torrentclient.cpp.
use uenclient.Common.{
  ℕ, zero, suc, ◌+◌, ◌-◌, ◌*◌, ◌/◌, ◌%◌, ◌≤◌, ◌<◌, ◌≡◌, refl, ap, sym, ◌∙◌, subst, Bool, true,
  false, not, ◌&&◌, inl, inr, List, [], ◌∷◌, ◌++◌, append-nil, append_assoc, length, length-set,
  length-take, take, set, get_or, is_empty, min, Bool-cases, All, All-set, All-get_or, All-take,
  All-imply, map, arith,
}
use uenclient.PeerWire.Client.{
  TorrentBlock, Client, Slots, ready_to_transfer, kill_pending_request_timer,
}
use uenclient.PeerWire.Words.{to_network_data}
use uenclient.PeerWire.Messages.{write, request_block}
use uenclient.TorrentClient.State.{Phase, is_multi, block_size, TorrentPiece}
use uenclient.TorrentClient.Blocks.{
  free_blocks, open_blocks, candidates, shuffle, requested_next, size_of_block, request_each,
  request_blocks,
}

-- A piece has a bit for each block, in both of its bit arrays.
abbrev pub IsWhole : TorrentPiece → Type 0
IsWhole p =
    (length p.completed_blocks ≡ (p.length_of + (block_size - 1)) / block_size)
    × (length p.requested_blocks ≡ length p.completed_blocks)

abbrev pub block_of : TorrentPiece → ℕ → TorrentBlock
block_of p bit = record {
  piece_index = p.index;
  offset = bit * block_size;
  length_of = size_of_block p bit;
}

-- A block that may be requested: it lies within the piece and is not completed, and it is not
-- requested yet unless several clients may request the same block.
abbrev pub IsWanted : Phase → TorrentPiece → TorrentBlock → Type 0
IsWanted state p b =
    (b.piece_index ≡ p.index)
    × (b.offset + b.length_of ≤ p.length_of)
    × (0 < b.length_of)
    × (get_or p.completed_blocks (b.offset / block_size) true ≡ false)
    × (is_multi state ≡ false → get_or p.requested_blocks (b.offset / block_size) true ≡ false)

-- The same of a block's number.
abbrev IsOpen : Phase → TorrentPiece → ℕ → Type 0
IsOpen state p i =
    (i < length p.completed_blocks)
    × (get_or p.completed_blocks i true ≡ false)
    × (is_multi state ≡ false → get_or p.requested_blocks i true ≡ false)

IsOpen-IsWanted :
    (state : Phase) (p : TorrentPiece) (i : ℕ)
    → IsWhole p
    → IsOpen state p i
    → IsWanted state p (block_of p i)
IsOpen-IsWanted state p i whole h =
    let place : i * block_size / block_size ≡ i = omega arith in
    (refl, ground arith, ground arith, rw place h.1, rw place h.2)

-- Bits from `i` on, of the bits `cs` and `rs` that stand from there on.
abbrev IsFree : ℕ → List Bool → List Bool → ℕ → Type 0
IsFree i cs rs j =
    (i ≤ j)
    × (j < i + length cs)
    × (get_or cs (j - i) true ≡ false)
    × (get_or rs (j - i) true ≡ false)

IsFree-later :
    (i : ℕ) (c r : Bool) (cs rs : List Bool) (j : ℕ)
    → IsFree (suc i) cs rs j
    → IsFree i (c ∷ cs) (r ∷ rs) j
IsFree-later i c r cs rs j (above, below, h, k) =
    let step : j - i ≡ suc (j - suc i) = omega arith in
    (omega arith, omega arith, rw step h, rw step k)

IsFree-first :
    (i : ℕ) (c r : Bool) (cs rs : List Bool) → c ≡ false → r ≡ false → IsFree i (c ∷ cs) (r ∷ rs) i
IsFree-first i c r cs rs h k =
    let start : i - i ≡ 0 = omega arith in (omega arith, omega arith, rw start h, rw start k)

free_blocks-IsFree :
    (i : ℕ) (cs rs : List Bool) → length rs ≡ length cs → All (IsFree i cs rs) (free_blocks i cs rs)
unfolding free_blocks
free_blocks-IsFree i [] rs e = tt
free_blocks-IsFree i (c ∷ cs) [] e = absurd (omega arith)
free_blocks-IsFree i (c ∷ cs) (r ∷ rs) e =
    let later : All (IsFree i (c ∷ cs) (r ∷ rs)) (free_blocks (suc i) cs rs) =
      All-imply (IsFree (suc i) cs rs) (IsFree i (c ∷ cs) (r ∷ rs)) (IsFree-later i c r cs rs)
        (free_blocks (suc i) cs rs) (free_blocks-IsFree (suc i) cs rs (omega arith)) in
    elim (Bool-cases (not c && not r)) [
      | inl free ↦ rw free (IsFree-first i c r cs rs (ground arith) (ground arith), later)
      | inr taken ↦ rw taken later
    ]

-- The same for the blocks that are not completed.
abbrev IsMissing : ℕ → List Bool → ℕ → Type 0
IsMissing i cs j = (i ≤ j) × (j < i + length cs) × (get_or cs (j - i) true ≡ false)

IsMissing-later :
    (i : ℕ) (c : Bool) (cs : List Bool) (j : ℕ) → IsMissing (suc i) cs j → IsMissing i (c ∷ cs) j
IsMissing-later i c cs j (above, below, h) =
    let step : j - i ≡ suc (j - suc i) = omega arith in (omega arith, omega arith, rw step h)

open_blocks-IsMissing : (i : ℕ) (cs : List Bool) → All (IsMissing i cs) (open_blocks i cs)
unfolding open_blocks
open_blocks-IsMissing i [] = tt
open_blocks-IsMissing i (c ∷ cs) =
    let later : All (IsMissing i (c ∷ cs)) (open_blocks (suc i) cs) =
      All-imply (IsMissing (suc i) cs) (IsMissing i (c ∷ cs)) (IsMissing-later i c cs)
        (open_blocks (suc i) cs) (open_blocks-IsMissing (suc i) cs) in
    elim (Bool-cases (not c)) [
      | inl missing ↦
          let start : i - i ≡ 0 = omega arith in
          rw missing ((omega arith, omega arith, rw start (ground arith)), later)
      | inr there ↦ rw there later
    ]

from_zero : (n : ℕ) → n - 0 ≡ n
from_zero n = omega arith

candidates-IsOpen :
    (state : Phase) (p : TorrentPiece) → IsWhole p → All (IsOpen state p) (candidates state p)
unfolding candidates
candidates-IsOpen state p whole =
    let cs : List Bool = p.completed_blocks in
    let rs : List Bool = p.requested_blocks in
    elim (Bool-cases (is_empty (free_blocks 0 cs rs))) [
      | inl none_free ↦ elim (Bool-cases (is_multi state)) [
        | inl multi ↦ rw none_free (
            rw multi (
              All-imply (IsMissing 0 cs) (IsOpen state p)
                (λ j h. (
                  omega (arith, h.1),
                  subst (λ (k : ℕ). get_or cs k true ≡ false) (from_zero j) h.2,
                  λ single. absurd (false_ne_true (sym single ∙ multi)),
                ))
                (open_blocks 0 cs) (open_blocks-IsMissing 0 cs)))
        | inr single ↦ rw none_free (rw single tt)
      ]
      | inr some_free ↦ rw some_free (
          All-imply (IsFree 0 cs rs) (IsOpen state p)
            (λ j h. (
              omega (arith, h.1),
              subst (λ (k : ℕ). get_or cs k true ≡ false) (from_zero j) h.2,
              λ single. subst (λ (k : ℕ). get_or rs k true ≡ false) (from_zero j) h.3,
            ))
            (free_blocks 0 cs rs) (free_blocks-IsFree 0 cs rs whole.1))
    ]
  where
    false_ne_true : false ≡ true → ⊥
    false_ne_true e = cc

mod-lt : (n k : ℕ) → 0 < k → n % k < k
mod-lt n k h = grind arith

-- Slots of `readyToTransfer` that leave the client's requests alone, as the rate controller's does.
abbrev pub KeepsIncoming : Slots → Type 0
KeepsIncoming emit = (c : Client) → (emit ready_to_transfer c).incoming ≡ c.incoming

module _ (P : ℕ → Type 0) (qrand : ℕ → ℕ) where
  shuffle-All : (k d : ℕ) (xs : List ℕ) → 0 < length xs → All P xs → All P (shuffle qrand k d xs)
  unfolding shuffle
  shuffle-All zero d xs some_xs h = h
  shuffle-All (suc k) d xs some_xs h =
      let a : ℕ = qrand d % length xs in
      let b : ℕ = qrand (d + 1) % length xs in
      let ys : List ℕ = set xs a (get_or xs b 0) in
      shuffle-All k (d + 2) (set ys b (get_or xs a 0))
        (omega (arith, length-set ys b (get_or xs a 0), length-set xs a (get_or xs b 0)))
        (All-set P ys b _
          (All-set P xs a _ h (All-get_or P xs b 0 h (mod-lt (qrand (d + 1)) (length xs) some_xs)))
          (All-get_or P xs a 0 h (mod-lt (qrand d) (length xs) some_xs)))

requested_next-IsOpen :
    (qrand : ℕ → ℕ) (state : Phase) (d : ℕ) (p : TorrentPiece)
    → IsWhole p
    → is_empty (candidates state p) ≡ false
    → All (IsOpen state p) (requested_next qrand state d p).0
unfolding requested_next
requested_next-IsOpen qrand state d p whole some_open =
    let bits : List ℕ = candidates state p in
    let all = candidates-IsOpen state p whole in
    elim (Bool-cases (is_multi state)) [
      | inl multi ↦
          rw multi
            (shuffle-All (IsOpen state p) qrand (length bits) d bits (some_of bits some_open) all)
      | inr single ↦ rw single all
    ]
  where
    some_of : (xs : List ℕ) → is_empty xs ≡ false → 0 < length xs
    some_of [] e = cc
    some_of (x ∷ xs) e = omega arith

kill-incoming : (d : Client) → (kill_pending_request_timer d).incoming ≡ d.incoming
kill-incoming d = ground arith

module _ (emit : Slots) (keeps : KeepsIncoming emit) where
  write-incoming : (x : List ℕ) (c : Client) → (write emit x c).incoming ≡ c.incoming
  unfolding write
  write-incoming x c = keeps _

  request_block-incoming :
      (piece offset len : ℕ) (c : Client)
      → (request_block emit piece offset len c).incoming
        ≡ c.incoming ++ (record { piece_index = piece; offset = offset; length_of = len } ∷ [])
  unfolding request_block
  request_block-incoming piece offset len c =
      let numbers : List ℕ =
        to_network_data piece ++ (to_network_data offset ++ to_network_data len) in
      let head : List ℕ = to_network_data 13 ++ (6 ∷ []) in
      let w : Client = write emit numbers (write emit head c) in
      let asked : List TorrentBlock =
        record { piece_index = piece; offset = offset; length_of = len } ∷ [] in
      kill-incoming (record w { incoming = w.incoming ++ asked })
      ∙ ap (λ (x : List TorrentBlock). x ++ asked)
          (write-incoming numbers (write emit head c) ∙ write-incoming head c)

  request_each-incoming :
      (p : TorrentPiece) (bits : List ℕ) (c : Client)
      → (request_each emit p bits c).incoming ≡ c.incoming ++ map (block_of p) bits
  unfolding request_each
  request_each-incoming p [] c = sym (append-nil c.incoming)
  request_each-incoming p (i ∷ is) c =
      request_each-incoming p is _
      ∙ ap (λ (x : List TorrentBlock). x ++ map (block_of p) is)
          (request_block-incoming p.index (i * block_size) (size_of_block p i) c)
      ∙ append_assoc c.incoming (block_of p i ∷ []) (map (block_of p) is)

  map-IsWanted :
      (state : Phase) (p : TorrentPiece) (bits : List ℕ)
      → IsWhole p
      → All (IsOpen state p) bits
      → All (IsWanted state p) (map (block_of p) bits)
  map-IsWanted state p [] whole h = tt
  map-IsWanted state p (i ∷ is) whole h =
      (IsOpen-IsWanted state p i whole h.0, map-IsWanted state p is whole h.1)

  length-blocks : (p : TorrentPiece) (bits : List ℕ) → length (map (block_of p) bits) ≡ length bits
  length-blocks p [] = refl
  length-blocks p (i ∷ is) = ap suc (length-blocks p is)

  -- What `requestBlocks` requests from the client: as many blocks as it returns and at most as many
  -- as it is asked for, each of which lies within the piece, is not completed, and is not requested
  -- yet unless several clients may request the same block. The piece has a bit for each block, and
  -- the slots of `readyToTransfer` leave the client's requests alone.
  pub request_blocks-IsWanted :
      (qrand : ℕ → ℕ) (state : Phase) (d max_blocks : ℕ) (p : TorrentPiece) (c : Client)
      → IsWhole p
      → let r = request_blocks emit qrand state d max_blocks p c in
        (bs : List TorrentBlock) × (r.client.incoming ≡ c.incoming ++ bs)
        × All (IsWanted state p) bs
        × (length bs ≡ r.result)
        × (r.result ≤ max_blocks)
  unfolding request_blocks
  request_blocks-IsWanted qrand state d max_blocks p c whole =
      let bits : List ℕ = (requested_next qrand state d p).0 in
      let n : ℕ = min max_blocks (length bits) in
      elim (Bool-cases (is_empty (candidates state p))) [
        | inl nothing ↦ rw nothing ([], sym (append-nil c.incoming), tt, refl, omega arith)
        | inr something ↦
            let all = requested_next-IsOpen qrand state d p whole something in
            rw something (
              map (block_of p) (take n bits),
              request_each-incoming p (take n bits) c,
              map-IsWanted state p (take n bits) whole (All-take (IsOpen state p) n bits all),
              omega (arith, length-blocks p (take n bits), length-take n bits),
              omega arith,
            )
      ]
