-- ===== src/RateController/Budget.antt =====
-- A tick of the rate controller, src/ratecontroller.cpp, ends and keeps within its budgets.
use uenclient.Common.{
  ℕ, zero, suc, ◌+◌, ◌-◌, ◌*◌, ◌/◌, ◌^◌, ◌≤◌, ◌<◌, ◌≡◌, refl, ap₂, ◌∙◌, true, false, not, ◌&&◌,
  ◌||◌, inl, inr, some, List, [], ◌∷◌, ◌++◌, length, is_empty, ltb, min, ◌==◌, Bool-cases, arith,
}
use uenclient.RateController.Sockets.{Sockets}
use uenclient.RateController.Transfer.{
  Budget, is_left, budget, budgets, chunk, Round, Served, serve_read, serve_write, serve, pass,
  rounds, split, Ticked, ticked, transfer, both, also_finished,
}

le-mul : (k m n : ℕ) → m ≤ n → k * m ≤ k * n
le-mul zero m n h = omega arith
le-mul (suc k) m n h = omega (arith, le-mul k m n h)

-- No limit that is small enough overflows in a second.
budget-some :
    (limit msecs : ℕ)
    → limit * 1000 < 2 ^ 31
    → budget limit (min 1000 msecs) ≡ some (limit * min 1000 msecs / 1000)
budget-some limit msecs h =
    let below : limit * min 1000 msecs ≤ limit * 1000 =
      le-mul limit (min 1000 msecs) 1000 (omega arith) in
    let test : ltb (limit * min 1000 msecs) (2 ^ 31) ≡ true = ground arith in rw test

abbrev pub size : Budget → ℕ
size b = b.to_write + b.to_read

module _ (sockets : Sockets) (up_limit : ℕ) where
  open sockets use {
    Client, can_transfer_more, connected, socket_bytes_available, bytes_to_write, read_from_socket,
    write_to_socket, got, sent, read-le, write-le, got-read, sent-read, got-write, sent-write,
  }

  -- What a socket's turn has moved is taken off the budget.
  abbrev IsPaid : Client → Budget → Served sockets up_limit → Type 0
  IsPaid c b s =
      (sent s.client + s.left.to_write ≡ sent c + b.to_write)
      × (got s.client + s.left.to_read ≡ got c + b.to_read)
      × (s.transferred ≡ true → size s.left < size b)
      × (s.left.more ≡ b.more)
      × (size s.left ≤ size b)

  serve_read-IsPaid :
      (read_chunk : ℕ) (c : Client) (b : Budget)
      → IsPaid c b (serve_read sockets up_limit read_chunk c b)
  unfolding serve_read
  serve_read-IsPaid read_chunk c b =
      let n : ℕ = min (min (socket_bytes_available c) read_chunk) b.to_read in
      ground (arith, read-le n c, got-read n c, sent-read n c)

  serve_write-IsPaid :
      (write_chunk : ℕ) (c : Client) (b : Budget)
      → IsPaid c b (serve_write sockets up_limit write_chunk c b)
  unfolding serve_write
  serve_write-IsPaid write_chunk c b =
      let n : ℕ = min (up_limit * 2 - bytes_to_write c) (min write_chunk b.to_write) in
      ground (arith, write-le n c, sent-write n c, got-write n c)

  IsPaid-then :
      (c : Client) (b : Budget) (r w : Served sockets up_limit)
      → IsPaid c b r
      → IsPaid r.client r.left w
      → IsPaid c b (record w { transferred = r.transferred || w.transferred })
  IsPaid-then c b r w (s1, g1, m1, e1, l1) (s2, g2, m2, e2, l2) =
      (omega arith, omega arith, ground (arith, m1, m2), e2 ∙ e1, omega arith)

  serve-IsPaid :
      (write_chunk read_chunk : ℕ) (c : Client) (b : Budget)
      → IsPaid c b (serve sockets up_limit write_chunk read_chunk c b)
  unfolding serve
  serve-IsPaid write_chunk read_chunk c b =
      let r : Served sockets up_limit = serve_read sockets up_limit read_chunk c b in
      IsPaid-then c b r (serve_write sockets up_limit write_chunk r.client r.left)
        (serve_read-IsPaid read_chunk c b) (serve_write-IsPaid write_chunk r.client r.left)

  abbrev pub total_sent : List Client → ℕ
  total_sent [] = 0
  total_sent (c ∷ cs) = sent c + total_sent cs

  abbrev pub total_got : List Client → ℕ
  total_got [] = 0
  total_got (c ∷ cs) = got c + total_got cs

  -- All that a round has moved is taken off the budget; where `canTransferMore` is set in it, it has
  -- moved something.
  abbrev Balanced : List Client → Budget → Round sockets up_limit → Type 0
  Balanced cs b r =
      (total_sent r.pending + total_sent r.finished + r.left.to_write ≡ total_sent cs + b.to_write)
      × (total_got r.pending + total_got r.finished + r.left.to_read ≡ total_got cs + b.to_read)
      × (b.more ≡ false → r.left.more ≡ true → size r.left < size b)
      × (size r.left ≤ size b)

  pass-Balanced :
      (write_chunk read_chunk : ℕ) (cs : List Client) (b : Budget)
      → Balanced cs b (pass sockets up_limit write_chunk read_chunk cs b)
  unfolding pass
  pass-Balanced write_chunk read_chunk [] b = (omega arith, omega arith, (λ e e'. cc), omega arith)
  pass-Balanced write_chunk read_chunk (c ∷ cs) b =
      let s : Served sockets up_limit = serve sockets up_limit write_chunk read_chunk c b in
      let (s1, g1, m1, e1, l1) = serve-IsPaid write_chunk read_chunk c b in
      let (s2, g2, m2, l2) = pass-Balanced write_chunk read_chunk cs b in
      let (s3, g3, m3, l3) = pass-Balanced write_chunk read_chunk cs s.left in
      let (s4, g4, m4, l4) =
        pass-Balanced write_chunk read_chunk cs (record s.left { more = true }) in
      ground arith

  total_sent-append : (xs ys : List Client) → total_sent (xs ++ ys) ≡ total_sent xs + total_sent ys
  total_sent-append [] ys = omega arith
  total_sent-append (x ∷ xs) ys = omega (arith, total_sent-append xs ys)

  total_got-append : (xs ys : List Client) → total_got (xs ++ ys) ≡ total_got xs + total_got ys
  total_got-append [] ys = omega arith
  total_got-append (x ∷ xs) ys = omega (arith, total_got-append xs ys)

  -- The same over all the rounds.
  abbrev Accounted : List Client → Budget → Round sockets up_limit → Type 0
  Accounted cs b r =
      (total_sent r.pending + total_sent r.finished + r.left.to_write ≡ total_sent cs + b.to_write)
      × (total_got r.pending + total_got r.finished + r.left.to_read ≡ total_got cs + b.to_read)

  -- Each round that goes on has moved a byte, so the loop ends.
  rounds-Accounted :
      (f : ℕ) (cs : List Client) (b : Budget)
      → size b < f
      → (r : Round sockets up_limit) × (rounds sockets up_limit f cs b ≡ some r) × Accounted cs b r
  unfolding rounds
  rounds-Accounted zero cs b h = absurd (omega arith)
  rounds-Accounted (suc f) cs b h =
      let w : ℕ = chunk b.to_write (length cs) in
      let g : ℕ = chunk b.to_read (length cs) in
      let r : Round sockets up_limit = pass sockets up_limit w g cs (record b { more = false }) in
      let (s1, g1, m1, l1) = pass-Balanced w g cs (record b { more = false }) in
      elim (Bool-cases (r.left.more && is_left r.left && not (is_empty r.pending))) [
        | inl goes_on ↦
            let less : size r.left < size b = m1 refl (ground arith) in
            let (t, found, (s2, g2)) = rounds-Accounted f r.pending r.left (omega arith) in
            (
              also_finished sockets up_limit r.finished t,
              rw goes_on (rw (found, rounds)),
              (
                omega (arith, total_sent-append r.finished t.finished),
                omega (arith, total_got-append r.finished t.finished),
              ),
            )
        | inr over ↦ (r, rw over, (s1, g1))
      ]

  split-total :
      (cs : List Client)
      → let (pending, idle) = split sockets up_limit cs in
        (total_sent pending + total_sent idle ≡ total_sent cs)
        × (total_got pending + total_got idle ≡ total_got cs)
  unfolding split
  split-total [] = (omega arith, omega arith)
  split-total (c ∷ cs) = let (s, g) = split-total cs in ground arith

  -- A tick ends, and in it all sockets together send at most their share of the upload limit and
  -- receive at most their share of the download limit, for the time since the last tick and a second
  -- at most: for limits that do not overflow an `int` when multiplied by 1000.
  pub transfer-within_budget :
      (down_limit msecs : ℕ) (clients : List Client)
      → up_limit * 1000 < 2 ^ 31
      → down_limit * 1000 < 2 ^ 31
      → (t : Ticked sockets up_limit) × (transfer sockets up_limit down_limit msecs clients
          ≡ some t)
        × (total_sent t.clients ≤ total_sent clients + up_limit * min 1000 msecs / 1000)
        × (total_got t.clients ≤ total_got clients + down_limit * min 1000 msecs / 1000)
  unfolding transfer
  transfer-within_budget down_limit msecs [] up down = (_, refl, omega arith, omega arith)
  transfer-within_budget down_limit msecs (c ∷ cs) up down =
      let w : ℕ = up_limit * min 1000 msecs / 1000 in
      let r : ℕ = down_limit * min 1000 msecs / 1000 in
      let quota : budgets up_limit down_limit (min 1000 msecs) ≡ some (w, r) =
        ap₂ both (budget-some up_limit msecs up) (budget-some down_limit msecs down) in
      let clients : List Client = c ∷ cs in
      let (pending, idle) = split sockets up_limit clients in
      let (s1, g1) = split-total clients in
      let b : Budget = record { to_write = w; to_read = r; more = false } in
      let (t, found, (s2, g2)) = rounds-Accounted (suc (w + r)) pending b (omega arith) in
      elim (Bool-cases (w == 0 && r == 0)) [
        | inl nothing ↦ (
          record { clients = clients; scheduled = true },
          rw (quota, transfer) (rw nothing),
          omega arith,
          omega arith,
        )
        | inr something ↦ elim (Bool-cases (is_empty pending)) [
          | inl none_pending ↦ (
            record { clients = clients; scheduled = false },
            rw (quota, transfer) (rw (something, none_pending)),
            omega arith,
            omega arith,
          )
          | inr some_pending ↦ (
            ticked sockets up_limit t idle,
            rw (quota, transfer) (rw (something, some_pending) (rw (found, rounds))),
            omega (
              arith,
              total_sent-append t.pending (t.finished ++ idle),
              total_sent-append t.finished idle,
            ),
            omega (
              arith,
              total_got-append t.pending (t.finished ++ idle),
              total_got-append t.finished idle,
            ),
          )
        ]
      ]
