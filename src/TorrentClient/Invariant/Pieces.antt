-- ===== src/TorrentClient/Invariant/Pieces.antt =====
-- What the changes to the pending pieces and to the payloads keep, src/torrentclient.cpp.
use uenclient.Common.{
  ℕ, ◌+◌, ◌-◌, ◌/◌, ◌%◌, ◌≡◌, refl, ap, ap₂, sym, ◌∙◌, subst, Bool, true, false, ◌||◌, inl, inr,
  some, List, [], ◌∷◌, length, length-set, length-replicate, set, ltb, ◌==◌, ==_iff, if◌then◌else◌,
  Bool-cases, All, All-imply, arith,
}
use uenclient.TorrentClient.State.{
  Phase, block_size, TorrentPiece, lookup_piece, update_piece, remove_piece, insert_piece,
  remove_payloads, remove_client_payloads,
}
use uenclient.TorrentClient.Blocks.{mark_all}
use uenclient.TorrentClient.Blocks.Requests.{IsWhole}
use uenclient.TorrentClient.Receiving.{complete_block, clear_piece, clear_all, release_piece}
use uenclient.TorrentClient.Schedule.{new_piece, start_piece, partial_piece}
use uenclient.TorrentClient.Invariant.{is_pending, IsLive}

-- A change of a piece that leaves it what it is: its index stays, and so does its number of blocks.
pub record IsMild (i : ℕ) (f : TorrentPiece → TorrentPiece) : Type 0 where
  pub index_kept : (p : TorrentPiece) → p.index ≡ i → (f p).index ≡ i
  pub whole_kept : (p : TorrentPiece) → p.index ≡ i → IsWhole p → IsWhole (f p)

pub is_pending-update_piece :
    (i j : ℕ) (f : TorrentPiece → TorrentPiece) (ps : List TorrentPiece)
    → IsMild i f
    → is_pending j (update_piece i f ps) ≡ is_pending j ps
is_pending-update_piece i j f [] m = refl
is_pending-update_piece i j f (p ∷ ps) m = elim (Bool-cases (p.index == i)) [
  | inl e ↦
      let same : (f p).index ≡ p.index =
        m.index_kept p ((==_iff p.index i).0 e) ∙ sym ((==_iff p.index i).0 e) in
      rw e (ap₂ (λ (k : ℕ) (b : Bool). k == j || b) same (is_pending-update_piece i j f ps m))
  | inr e ↦ rw e (ap (λ (b : Bool). p.index == j || b) (is_pending-update_piece i j f ps m))
]

pub update_piece-IsWhole :
    (i : ℕ) (f : TorrentPiece → TorrentPiece) (ps : List TorrentPiece)
    → IsMild i f
    → All IsWhole ps
    → All IsWhole (update_piece i f ps)
update_piece-IsWhole i f [] m h = tt
update_piece-IsWhole i f (p ∷ ps) m h = elim (Bool-cases (p.index == i)) [
  | inl e ↦ rw e (m.whole_kept p ((==_iff p.index i).0 e) h.0, update_piece-IsWhole i f ps m h.1)
  | inr e ↦ rw e (h.0, update_piece-IsWhole i f ps m h.1)
]

-- The payloads stay live under such a change.
pub update_piece-IsLive :
    (i : ℕ) (f : TorrentPiece → TorrentPiece) (ps : List TorrentPiece) (loads : List (ℕ × ℕ))
    → IsMild i f
    → All (IsLive ps) loads
    → All (IsLive (update_piece i f ps)) loads
update_piece-IsLive i f ps loads m h =
    All-imply (IsLive ps) (IsLive (update_piece i f ps))
      (λ l e. is_pending-update_piece i l.1 f ps m ∙ e) loads h

-- Without a piece and without its payloads.
is_pending-remove_piece :
    (i j : ℕ) (ps : List TorrentPiece)
    → (j == i) ≡ false
    → is_pending j (remove_piece i ps) ≡ is_pending j ps
is_pending-remove_piece i j [] e = refl
is_pending-remove_piece i j (p ∷ ps) e = ground (arith, is_pending-remove_piece i j ps e)

pub remove_piece-IsWhole :
    (i : ℕ) (ps : List TorrentPiece) → All IsWhole ps → All IsWhole (remove_piece i ps)
remove_piece-IsWhole i [] h = tt
remove_piece-IsWhole i (p ∷ ps) h = elim (Bool-cases (p.index == i)) [
  | inl e ↦ rw e (remove_piece-IsWhole i ps h.1)
  | inr e ↦ rw e (h.0, remove_piece-IsWhole i ps h.1)
]

module _ (P : ℕ × ℕ → Type 0) where
  pub live-remove_payloads :
      (i : ℕ) (loads : List (ℕ × ℕ)) → All P loads → All P (remove_payloads i loads)
  live-remove_payloads i [] h = tt
  live-remove_payloads i ((n, j) ∷ ls) h = elim (Bool-cases (j == i)) [
    | inl e ↦ rw e (live-remove_payloads i ls h.1)
    | inr e ↦ rw e (h.0, live-remove_payloads i ls h.1)
  ]

  pub live-remove_client_payloads :
      (n : ℕ) (loads : List (ℕ × ℕ)) → All P loads → All P (remove_client_payloads n loads)
  live-remove_client_payloads n [] h = tt
  live-remove_client_payloads n ((m, j) ∷ ls) h = elim (Bool-cases (m == n)) [
    | inl e ↦ rw e (live-remove_client_payloads n ls h.1)
    | inr e ↦ rw e (h.0, live-remove_client_payloads n ls h.1)
  ]

pub remove_piece-IsLive :
    (i : ℕ) (ps : List TorrentPiece) (loads : List (ℕ × ℕ))
    → All (IsLive ps) loads
    → All (IsLive (remove_piece i ps)) (remove_payloads i loads)
remove_piece-IsLive i ps [] h = tt
remove_piece-IsLive i ps ((n, j) ∷ ls) h = elim (Bool-cases (j == i)) [
  | inl e ↦ rw e (remove_piece-IsLive i ps ls h.1)
  | inr e ↦ rw e (is_pending-remove_piece i j ps e ∙ h.0, remove_piece-IsLive i ps ls h.1)
]

length-mark_all : (is : List ℕ) (bits : List Bool) → length (mark_all is bits) ≡ length bits
length-mark_all [] bits = refl
length-mark_all (i ∷ is) bits = length-mark_all is (set bits i true) ∙ length-set bits i true

pub complete_block-IsMild : (i bit : ℕ) → IsMild i (complete_block bit)
complete_block-IsMild i bit = record {
  index_kept = λ p e. e;
  whole_kept = λ p e h. (
    length-set p.completed_blocks bit true ∙ h.0,
    length-set p.requested_blocks bit false ∙ h.1 ∙ sym (length-set p.completed_blocks bit true),
  );
}

length-clear_all : (bits : List Bool) → length (clear_all bits) ≡ length bits
length-clear_all bits = length-replicate (length bits) false

pub clear_piece-IsMild : (i : ℕ) → IsMild i clear_piece
clear_piece-IsMild i = record {
  index_kept = λ p e. e;
  whole_kept = λ p e h. (
    length-clear_all p.completed_blocks ∙ h.0,
    length-clear_all p.requested_blocks ∙ h.1 ∙ sym (length-clear_all p.completed_blocks),
  );
}

pub release_piece-IsMild : (i : ℕ) → IsMild i release_piece
release_piece-IsMild i = record {
  index_kept = λ p e. e;
  whole_kept = λ p e h. (h.0, length-clear_all p.requested_blocks ∙ h.1);
}

pub start_piece-IsMild : (i : ℕ) → IsMild i start_piece
start_piece-IsMild i = record { index_kept = λ p e. e; whole_kept = λ p e h. h }

-- A pending piece with more of its blocks requested takes the piece's place.
pub marked-IsMild :
    (i : ℕ) (bits : List ℕ) (p : TorrentPiece)
    → p.index ≡ i
    → IsWhole p
    → IsMild i (λ q. record p { requested_blocks = mark_all bits p.requested_blocks })
marked-IsMild i bits p at h = record {
  index_kept = λ q e. at;
  whole_kept = λ q e g. (h.0, length-mark_all bits p.requested_blocks ∙ h.1);
}

pub same-IsMild : (i : ℕ) (p : TorrentPiece) → p.index ≡ i → IsWhole p → IsMild i (λ q. p)
same-IsMild i p at h = record { index_kept = λ q e. at; whole_kept = λ q e g. h }

-- A piece that is looked up.
pub lookup_piece-some :
    (i : ℕ) (ps : List TorrentPiece) (p : TorrentPiece)
    → lookup_piece i ps ≡ some p
    → All IsWhole ps
    → (p.index ≡ i) × IsWhole p × (is_pending i ps ≡ true)
lookup_piece-some i [] p e h = cc
lookup_piece-some i (q ∷ qs) p e h = elim (Bool-cases (q.index == i)) [
  | inl at ↦
      let same : q ≡ p = some_inj (sym (pick at) ∙ e) in
      (
        ap (λ (x : TorrentPiece). x.index) (sym same) ∙ (==_iff q.index i).0 at,
        subst IsWhole same h.0,
        rw at,
      )
  | inr at ↦ let (x, y, z) = lookup_piece-some i qs p (sym (skip at) ∙ e) h.1 in (x, y, rw at z)
]
  where
    some_inj : {a b : TorrentPiece} → some a ≡ some b → a ≡ b
    some_inj f = cc

    pick : (q.index == i) ≡ true → lookup_piece i (q ∷ qs) ≡ some q
    pick f = rw f

    skip : (q.index == i) ≡ false → lookup_piece i (q ∷ qs) ≡ lookup_piece i qs
    skip f = rw f

-- A new piece.
pub is_pending-insert_piece :
    (j : ℕ) (p : TorrentPiece) (ps : List TorrentPiece)
    → is_pending j (insert_piece p ps) ≡ (p.index == j || is_pending j ps)
is_pending-insert_piece j p [] = refl
is_pending-insert_piece j p (q ∷ qs) = ground (arith, is_pending-insert_piece j p qs)

pub insert_piece-IsWhole :
    (p : TorrentPiece) (ps : List TorrentPiece)
    → IsWhole p
    → All IsWhole ps
    → All IsWhole (insert_piece p ps)
insert_piece-IsWhole p [] w h = (w, tt)
insert_piece-IsWhole p (q ∷ qs) w h = elim (Bool-cases (ltb p.index q.index)) [
  | inl e ↦ rw e (w, h)
  | inr e ↦ elim (Bool-cases (p.index == q.index)) [
    | inl at ↦ rw (e, at) (w, h.1)
    | inr at ↦ rw (e, at) (h.0, insert_piece-IsWhole p qs w h.1)
  ]
]

pub new_piece-IsWhole : (i len : ℕ) → IsWhole (new_piece i len)
new_piece-IsWhole i len =
    let n : ℕ = len / block_size + (if len % block_size == 0 then 0 else 1) in
    let count : n ≡ (len + (block_size - 1)) / block_size = ground arith in
    (length-replicate n false ∙ count, refl)

pub partial_piece-pending :
    (state : Phase) (bits : List Bool) (ps : List TorrentPiece) (j : ℕ)
    → partial_piece state bits ps ≡ some j
    → is_pending j ps ≡ true
partial_piece-pending state bits [] j e = cc
partial_piece-pending state bits (p ∷ ps) j e =
    ground (arith, partial_piece-pending state bits ps j)
