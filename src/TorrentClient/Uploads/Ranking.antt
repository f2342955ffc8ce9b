-- ===== src/TorrentClient/Uploads/Ranking.antt =====
-- The order in which `scheduleUploads` of src/torrentclient.cpp goes through its clients.
use uenclient.Common.{
  ℕ, ◌≤◌, ◌<◌, ◌≢◌, sym, List, [], ◌∷◌, All, All-imply, ltb, ltb→lt, arith, Bool-cases, inl, inr,
  if-holds,
}
use uenclient.TorrentClient.State.{Phase, Connection}
use uenclient.TorrentClient.Uploads.{is_eligible, speed, insert_speed, rank}

-- The fastest first.
abbrev pub IsDescending : List (ℕ × ℕ) → Type 0
IsDescending [] = Unit
IsDescending (e ∷ es) = All (λ (d : ℕ × ℕ). d.0 ≤ e.0) es × IsDescending es

-- No client twice.
abbrev pub HasDistinct : List (ℕ × ℕ) → Type 0
HasDistinct [] = Unit
HasDistinct (e ∷ es) = All (λ (d : ℕ × ℕ). e.1 ≢ d.1) es × HasDistinct es

abbrev pub HasDistinctNumbers : List Connection → Type 0
HasDistinctNumbers [] = Unit
HasDistinctNumbers (k ∷ ks) =
    All (λ (j : Connection). k.number ≢ j.number) ks × HasDistinctNumbers ks

insert_speed-All :
    (P : ℕ × ℕ → Type 0) (e : ℕ × ℕ) (ds : List (ℕ × ℕ))
    → P e
    → All P ds
    → All P (insert_speed e ds)
unfolding insert_speed
insert_speed-All P e [] p h = (p, tt)
insert_speed-All P e (d ∷ ds) p h =
    if-holds (All P) (ltb d.0 e.0) (λ _. (p, h)) (λ _. (h.0, insert_speed-All P e ds p h.1))

insert_speed-IsDescending :
    (e : ℕ × ℕ) (ds : List (ℕ × ℕ)) → IsDescending ds → IsDescending (insert_speed e ds)
unfolding insert_speed
insert_speed-IsDescending e [] h = (tt, tt)
insert_speed-IsDescending e (d ∷ ds) h =
    if-holds IsDescending (ltb d.0 e.0)
      (λ f.
        let faster : d.0 < e.0 = ltb→lt d.0 e.0 f in
        (
          (
            omega arith,
            All-imply (λ (x : ℕ × ℕ). x.0 ≤ d.0) (λ (x : ℕ × ℕ). x.0 ≤ e.0) (λ x le. omega arith) ds
                h.0,
          ),
          h,
        ))
      (λ f. (
        insert_speed-All (λ (x : ℕ × ℕ). x.0 ≤ d.0) e ds (ground arith) h.0,
        insert_speed-IsDescending e ds h.1,
      ))

insert_speed-HasDistinct :
    (e : ℕ × ℕ) (ds : List (ℕ × ℕ))
    → All (λ (d : ℕ × ℕ). e.1 ≢ d.1) ds
    → HasDistinct ds
    → HasDistinct (insert_speed e ds)
unfolding insert_speed
insert_speed-HasDistinct e [] fresh h = (tt, tt)
insert_speed-HasDistinct e (d ∷ ds) fresh h =
    if-holds HasDistinct (ltb d.0 e.0) (λ _. (fresh, h))
      (λ _. (
        insert_speed-All (λ (x : ℕ × ℕ). d.1 ≢ x.1) e ds (λ q. fresh.0 (sym q)) h.0,
        insert_speed-HasDistinct e ds fresh.1 h.1,
      ))

module _ (phase : Phase) (count : ℕ) where
  pub rank-IsDescending :
      (ds : List (ℕ × ℕ)) (ks : List Connection)
      → IsDescending ds
      → IsDescending (rank phase count ds ks)
  unfolding rank
  rank-IsDescending ds [] h = h
  rank-IsDescending ds (k ∷ ks) h = elim (Bool-cases (is_eligible count k)) [
    | inl e ↦ rw e (
        rank-IsDescending (insert_speed (speed phase k.client, k.number) ds) ks
          (insert_speed-IsDescending (speed phase k.client, k.number) ds h))
    | inr e ↦ rw e (rank-IsDescending ds ks h)
  ]

  -- What is still to be inserted is not there yet.
  abbrev pub AreNew : List (ℕ × ℕ) → List Connection → Type 0
  AreNew ds ks = All (λ (k : Connection). All (λ (d : ℕ × ℕ). k.number ≢ d.1) ds) ks

  AreNew-insert_speed :
      (k : Connection) (v : ℕ) (ds : List (ℕ × ℕ)) (ks : List Connection)
      → All (λ (j : Connection). k.number ≢ j.number) ks
      → AreNew ds ks
      → AreNew (insert_speed (v, k.number) ds) ks
  AreNew-insert_speed k v ds [] h fresh = tt
  AreNew-insert_speed k v ds (j ∷ ks) h fresh = (
    insert_speed-All (λ (d : ℕ × ℕ). j.number ≢ d.1) (v, k.number) ds (λ q. h.0 (sym q)) fresh.0,
    AreNew-insert_speed k v ds ks h.1 fresh.1,
  )

  pub rank-HasDistinct :
      (ds : List (ℕ × ℕ)) (ks : List Connection)
      → AreNew ds ks
      → HasDistinctNumbers ks
      → HasDistinct ds
      → HasDistinct (rank phase count ds ks)
  unfolding rank
  rank-HasDistinct ds [] fresh h d = d
  rank-HasDistinct ds (k ∷ ks) fresh h d = elim (Bool-cases (is_eligible count k)) [
    | inl e ↦ rw e (
        rank-HasDistinct (insert_speed (speed phase k.client, k.number) ds) ks
          (AreNew-insert_speed k (speed phase k.client) ds ks h.0 fresh.1) h.1
          (insert_speed-HasDistinct (speed phase k.client, k.number) ds fresh.0 d))
    | inr e ↦ rw e (rank-HasDistinct ds ks fresh.1 h.1 d)
  ]

  pub rank-All :
      (P : ℕ × ℕ → Type 0) (ds : List (ℕ × ℕ)) (ks : List Connection)
      → All P ds
      → All (λ (k : Connection). (v : ℕ) → P (v, k.number)) ks
      → All P (rank phase count ds ks)
  unfolding rank
  rank-All P ds [] h new = h
  rank-All P ds (k ∷ ks) h new = elim (Bool-cases (is_eligible count k)) [
    | inl e ↦ rw e (
        rank-All P (insert_speed (speed phase k.client, k.number) ds) ks
          (insert_speed-All P (speed phase k.client, k.number) ds (new.0 (speed phase k.client)) h)
          new.1)
    | inr e ↦ rw e (rank-All P ds ks h new.1)
  ]

  pub AreNew-nil : (ks : List Connection) → AreNew [] ks
  AreNew-nil [] = tt
  AreNew-nil (k ∷ ks) = (tt, AreNew-nil ks)
