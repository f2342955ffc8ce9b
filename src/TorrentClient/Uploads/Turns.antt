-- ===== src/TorrentClient/Uploads/Turns.antt =====
-- What the turns of the loop of `scheduleUploads`, src/torrentclient.cpp, make of their clients.
use uenclient.Common.{
  ℕ, ◌-◌, ◌%◌, ◌≤◌, ◌≡◌, ◌≢◌, refl, sym, ap, subst, ◌∙◌, Bool, true, false, Option, some, List, [],
  ◌∷◌, ◌++◌, length, get_or, All, ◌==◌, ==_iff, arith, Bool-cases, Option-cases, inl, inr,
}
use uenclient.PeerWire.Client.{Slots}
use uenclient.TorrentClient.State.{Connection, lookup_connection, call_client}
use uenclient.TorrentClient.Uploads.{
  Uploads, unchoke, choke_or_abort, take_slot, lose_slot, upload_turn, upload_turns, optimistic,
}
use uenclient.TorrentClient.Uploads.Choking.{
  is_served, is_idle, lookup_connection-call_client, unchoke-is_served, choke_or_abort-is_idle,
}
use uenclient.TorrentClient.Uploads.Ranking.{HasDistinct}

-- A client of that number is there.
abbrev pub IsKnown : List Connection → ℕ × ℕ → Type 0
IsKnown cs e = (k : Connection) × (lookup_connection e.1 cs ≡ some k)

abbrev pub IsServed : List Connection → ℕ × ℕ → Type 0
IsServed cs e = is_served (lookup_connection e.1 cs) ≡ true

abbrev pub IsIdle : List Connection → ℕ × ℕ → Type 0
IsIdle cs e = is_idle (lookup_connection e.1 cs) ≡ true

-- None of them is client `n`.
abbrev pub Avoids : ℕ → List (ℕ × ℕ) → Type 0
Avoids n es = All (λ (d : ℕ × ℕ). n ≢ d.1) es

module _ (emit : Slots) (qrand : ℕ → ℕ) where
  turn-other :
      (m n : ℕ) (u : Uploads)
      → m ≢ n
      → lookup_connection m (upload_turn emit qrand n u).connections
        ≡ lookup_connection m u.connections
  unfolding upload_turn take_slot lose_slot
  turn-other m n u h = elim (Option-cases (lookup_connection n u.connections)) [
    | inl e ↦ rw (e, upload_turn)
    | inr (k, e) ↦ elim (Bool-cases (u.left == 0)) [
      | inl z ↦
          rw (e, upload_turn, z)
            (lookup_connection-call_client m n (choke_or_abort emit (qrand u.draws)) u.connections
              h)
      | inr z ↦
          rw (e, upload_turn, z) (lookup_connection-call_client m n (unchoke emit) u.connections h)
    ]
  ]

  turn-take :
      (n : ℕ) (u : Uploads) (k : Connection)
      → lookup_connection n u.connections ≡ some k
      → (u.left == 0) ≡ false
      → upload_turn emit qrand n u ≡ take_slot emit qrand n u
  unfolding upload_turn
  turn-take n u k e z = rw (e, upload_turn, z)

  turn-lose :
      (n : ℕ) (u : Uploads) (k : Connection)
      → lookup_connection n u.connections ≡ some k
      → (u.left == 0) ≡ true
      → upload_turn emit qrand n u ≡ lose_slot emit qrand n k u
  unfolding upload_turn
  turn-lose n u k e z = rw (e, upload_turn, z)

  pub turns-other :
      (m : ℕ) (es : List (ℕ × ℕ)) (u : Uploads)
      → Avoids m es
      → lookup_connection m (upload_turns emit qrand es u).connections
        ≡ lookup_connection m u.connections
  unfolding upload_turns
  turns-other m [] u h = refl
  turns-other m ((v, n) ∷ es) u h =
      turns-other m es (upload_turn emit qrand n u) h.1 ∙ turn-other m n u h.0

  -- The clients that a turn of another one leaves known.
  turn-IsKnown :
      (n : ℕ) (es : List (ℕ × ℕ)) (u : Uploads)
      → Avoids n es
      → All (IsKnown u.connections) es
      → All (IsKnown (upload_turn emit qrand n u).connections) es
  turn-IsKnown n [] u a h = tt
  turn-IsKnown n (d ∷ es) u a h =
      ((h.0.0, turn-other d.1 n u (λ q. a.0 (sym q)) ∙ h.0.1), turn-IsKnown n es u a.1 h.1)

  -- As long as there are slots, every client has one.
  pub turns-IsServed :
      (es : List (ℕ × ℕ)) (u : Uploads)
      → HasDistinct es
      → All (IsKnown u.connections) es
      → length es ≤ u.left
      → All (IsServed (upload_turns emit qrand es u).connections) es
        × ((upload_turns emit qrand es u).left ≡ u.left - length es)
  unfolding upload_turns
  turns-IsServed [] u d known room = (tt, omega arith)
  turns-IsServed ((v, n) ∷ es) u d known room =
      let k : Connection = known.0.0 in
      let here : upload_turn emit qrand n u ≡ take_slot emit qrand n u =
        turn-take n u k known.0.1 (ground arith) in
      let one_less : (upload_turn emit qrand n u).left ≡ u.left - 1 =
        ap (λ (w : Uploads). w.left) here ∙ unfold take_slot in refl in
      let served : IsServed (upload_turn emit qrand n u).connections (v, n) =
        ap (λ (w : Uploads). is_served (lookup_connection n w.connections)) here
        ∙ (unfold take_slot in unchoke-is_served emit n u.connections k known.0.1) in
      let rest =
        turns-IsServed es (upload_turn emit qrand n u) d.1 (turn-IsKnown n es u d.0 known.1)
          (omega arith) in
      (
        (ap is_served (turns-other n es (upload_turn emit qrand n u) d.0) ∙ served, rest.0),
        omega (arith, rest.1),
      )

  -- Without slots, every client is choked or given up.
  pub turns-IsIdle :
      (es : List (ℕ × ℕ)) (u : Uploads)
      → HasDistinct es
      → All (IsKnown u.connections) es
      → u.left ≡ 0
      → All (IsIdle (upload_turns emit qrand es u).connections) es
  unfolding upload_turns
  turns-IsIdle [] u d known full = tt
  turns-IsIdle ((v, n) ∷ es) u d known full =
      let k : Connection = known.0.0 in
      let here : upload_turn emit qrand n u ≡ lose_slot emit qrand n k u =
        turn-lose n u k known.0.1 (ground arith) in
      let still : (upload_turn emit qrand n u).left ≡ u.left =
        ap (λ (w : Uploads). w.left) here ∙ unfold lose_slot in refl in
      let idle : IsIdle (upload_turn emit qrand n u).connections (v, n) =
        ap (λ (w : Uploads). is_idle (lookup_connection n w.connections)) here
        ∙ (unfold lose_slot in
            choke_or_abort-is_idle emit (qrand u.draws) n u.connections k known.0.1) in
      (
        ap is_idle (turns-other n es (upload_turn emit qrand n u) d.0) ∙ idle,
        turns-IsIdle es (upload_turn emit qrand n u) d.1 (turn-IsKnown n es u d.0 known.1)
            (still ∙ full),
      )

  pub turns-append :
      (es ds : List (ℕ × ℕ)) (u : Uploads)
      → upload_turns emit qrand (es ++ ds) u
        ≡ upload_turns emit qrand ds (upload_turns emit qrand es u)
  unfolding upload_turns
  turns-append [] ds u = refl
  turns-append ((v, n) ∷ es) ds u = turns-append es ds (upload_turn emit qrand n u)

  -- What holds of a client's connection before other clients' turns holds behind them.
  pub turns-keep :
      (P : Option Connection → Bool) (es ds : List (ℕ × ℕ)) (u : Uploads)
      → All (λ (e : ℕ × ℕ). Avoids e.1 ds) es
      → All (λ (e : ℕ × ℕ). P (lookup_connection e.1 u.connections) ≡ true) es
      → All
          (λ (e : ℕ × ℕ).
            P (lookup_connection e.1 (upload_turns emit qrand ds u).connections) ≡ true)
          es
  turns-keep P [] ds u a h = tt
  turns-keep P (e ∷ es) ds u a h =
      (ap P (turns-other e.1 ds u a.0) ∙ h.0, turns-keep P es ds u a.1 h.1)

  -- The same for being known.
  pub turns-IsKnown :
      (es ds : List (ℕ × ℕ)) (u : Uploads)
      → All (λ (e : ℕ × ℕ). Avoids e.1 ds) es
      → All (IsKnown u.connections) es
      → All (IsKnown (upload_turns emit qrand ds u).connections) es
  turns-IsKnown [] ds u a h = tt
  turns-IsKnown (e ∷ es) ds u a h =
      ((h.0.0, turns-other e.1 ds u a.0 ∙ h.0.1), turns-IsKnown es ds u a.1 h.1)

  -- An unchoke of any client leaves a served one served.
  unchoke-IsServed :
      (l : ℕ) (cs : List Connection) (e : ℕ × ℕ)
      → IsServed cs e
      → IsServed (call_client l (unchoke emit) cs) e
  unchoke-IsServed l cs e h = elim (Bool-cases (e.1 == l)) [
    | inl same ↦
        let is_l : e.1 ≡ l = (==_iff e.1 l).0 same in
        elim (Option-cases (lookup_connection e.1 cs)) [
          | inl gone ↦ cc (sym h ∙ ap is_served gone)
          | inr (k, there) ↦
              subst
                (λ (n : ℕ).
                  is_served (lookup_connection e.1 (call_client n (unchoke emit) cs)) ≡ true)
                is_l (unchoke-is_served emit e.1 cs k there)
        ]
    | inr other ↦
        ap is_served (
          lookup_connection-call_client e.1 l (unchoke emit) cs
            (λ q. cc (sym other ∙ (==_iff e.1 l).1 q)))
        ∙ h
  ]

  -- The optimistic unchoke serves one client, and leaves the others as they were.
  pub optimistic-IsServed :
      (u : Uploads) (ns : List ℕ) (e : ℕ × ℕ)
      → u.all_clients ≡ ns
      → IsServed u.connections e
      → IsServed (optimistic emit qrand u).connections e
  unfolding optimistic
  optimistic-IsServed u [] e at h = rw (at, optimistic) h
  optimistic-IsServed u (x ∷ xs) e at h =
      rw (at, optimistic)
        (unchoke-IsServed (get_or (x ∷ xs) (qrand u.draws % length (x ∷ xs)) 0) u.connections e h)

  pub optimistic-IsIdle :
      (u : Uploads)
      → (lucky : ℕ) × ((n : ℕ)
          → n ≢ lucky
          → lookup_connection n (optimistic emit qrand u).connections
            ≡ lookup_connection n u.connections)
  unfolding optimistic
  optimistic-IsIdle u =
      elim u.all_clients
        as (λ (ns : List ℕ).
          let w : Uploads = record u { all_clients = ns } in
          (lucky : ℕ) × ((n : ℕ)
            → n ≢ lucky
            → lookup_connection n (optimistic emit qrand w).connections
              ≡ lookup_connection n w.connections)) [
                | [] ↦ (0, λ n h. refl)
                | x ∷ xs ↦ (
                  get_or (x ∷ xs) (qrand u.draws % length (x ∷ xs)) 0,
                  λ n h.
                      lookup_connection-call_client n
                        (get_or (x ∷ xs) (qrand u.draws % length (x ∷ xs)) 0) (unchoke emit)
                        u.connections h,
                )
              ]
