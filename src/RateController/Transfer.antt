-- ===== src/RateController/Transfer.antt =====
-- `RateController` of src/ratecontroller.cpp: the share of each socket in the bytes of a tick.
use uenclient.Common.{
  ℕ, zero, suc, ◌+◌, ◌-◌, ◌*◌, ◌/◌, ◌^◌, Bool, true, false, not, ◌&&◌, ◌||◌, Option, none, some,
  List, [], ◌∷◌, ◌++◌, length, is_empty, ltb, min, max, ◌==◌, if◌then◌else◌,
}
use uenclient.RateController.Sockets.{Sockets, count}

-- `bytesToWrite`, `bytesToRead` and `canTransferMore`.
pub record Budget : Type 0 where
  pub to_write : ℕ
  pub to_read : ℕ
  pub more : Bool

-- `while (… && (bytesToWrite > 0 || bytesToRead > 0))`.
abbrev pub is_left : Budget → Bool
is_left b = ltb 0 b.to_write || ltb 0 b.to_read

-- `(limit * msecs) / 1000` in an `int`, whose overflow is undefined.
abbrev pub budget : ℕ → ℕ → Option ℕ
budget limit msecs = if ltb (limit * msecs) (2 ^ 31) then some (limit * msecs / 1000) else none

abbrev pub both : Option ℕ → Option ℕ → Option (ℕ × ℕ)
both (some w) (some r) = some (w, r)
both _ _ = none

-- What may be written and what may be read in a tick.
abbrev pub budgets : ℕ → ℕ → ℕ → Option (ℕ × ℕ)
budgets up_limit down_limit msecs = both (budget up_limit msecs) (budget down_limit msecs)

-- The bytes that each socket may write and read in a round.
abbrev pub chunk : ℕ → ℕ → ℕ
chunk bytes zero = max 1 bytes
chunk bytes (suc n) = max 1 (bytes / suc n)

module _ (sockets : Sockets) (up_limit : ℕ) where
  open sockets use {
    Client, can_transfer_more, connected, socket_bytes_available, bytes_to_write, read_from_socket,
    write_to_socket,
  }

  -- The sockets that are still pending, those that are not any more, and the budget left.
  pub record Round : Type 0 where
    pub pending : List Client
    pub finished : List Client
    pub left : Budget

  -- A client after its turn, the budget, and `dataTransferred`.
  pub record Served : Type 0 where
    pub client : Client
    pub left : Budget
    pub transferred : Bool

  unfoldable pub serve_read : ℕ → Client → Budget → Served
  serve_read read_chunk c b =
      let available : ℕ = min (socket_bytes_available c) read_chunk in
      let (n, d) = read_from_socket (min available b.to_read) c in
      if ltb 0 available
      then record { client = d; left = record b { to_read = b.to_read - n }; transferred = ltb 0 n }
      else record { client = c; left = b; transferred = false }

  unfoldable pub serve_write : ℕ → Client → Budget → Served
  serve_write write_chunk c b =
      let to_write : ℕ = min (up_limit * 2 - bytes_to_write c) (min write_chunk b.to_write) in
      let (z, d) = write_to_socket to_write c in
      if ltb (bytes_to_write c) (up_limit * 2) && ltb 0 to_write
      then record {
        client = d;
        left = record b { to_write = b.to_write - count z };
        transferred = ltb 0 (count z);
      }
      else record { client = c; left = b; transferred = false }

  unfoldable pub serve : ℕ → ℕ → Client → Budget → Served
  unfolding serve_read serve_write
  serve write_chunk read_chunk c b =
      let r : Served = serve_read read_chunk c b in
      let w : Served = serve_write write_chunk r.client r.left in
      record w { transferred = r.transferred || w.transferred }

  abbrev pub keep : Client → Round → Round
  keep c r = record r { pending = c ∷ r.pending }

  abbrev pub finish : Client → Round → Round
  finish c r = record r { finished = c ∷ r.finished }

  -- The inner loop, over the sockets that are pending when it begins.
  unfoldable pub pass : ℕ → ℕ → List Client → Budget → Round
  unfolding serve
  pass write_chunk read_chunk [] b = record { pending = []; finished = []; left = b }
  pass write_chunk read_chunk (c ∷ cs) b =
      let s : Served = serve write_chunk read_chunk c b in
      let goes_on : Bool = s.transferred && can_transfer_more s.client in
      let skipped : Round = finish c (pass write_chunk read_chunk cs b) in
      let kept : Round =
        keep s.client (pass write_chunk read_chunk cs (record s.left { more = true })) in
      let done : Round = finish s.client (pass write_chunk read_chunk cs s.left) in
      if not (is_left b)
      then record { pending = c ∷ cs; finished = []; left = b }
      else if not (connected c)
      then skipped
      else if goes_on
      then kept
      else done

  abbrev pub also_finished : List Client → Round → Round
  also_finished cs r = record r { finished = cs ++ r.finished }

  -- The outer loop.
  unfoldable pub rounds : ℕ → List Client → Budget → Option Round
  unfolding pass
  rounds zero cs b = none
  rounds (suc f) cs b =
      let r : Round =
        pass (chunk b.to_write (length cs)) (chunk b.to_read (length cs)) cs
          (record b { more = false }) in
      let rest : Option Round = rounds f r.pending r.left in
      if r.left.more && is_left r.left && not (is_empty r.pending)
      then elim rest [ none ↦ none | some t ↦ some (also_finished r.finished t) ]
      else some r

  -- `if (client->canTransferMore()) pendingSockets << client`.
  unfoldable pub split : List Client → List Client × List Client
  split [] = ([], [])
  split (c ∷ cs) =
      let (yes_cs, no_cs) = split cs in
      if can_transfer_more c then (c ∷ yes_cs, no_cs) else (yes_cs, c ∷ no_cs)

  -- The sockets after `transfer`, and whether it has called `scheduleTransfer`.
  pub record Ticked : Type 0 where
    pub clients : List Client
    pub scheduled : Bool

  abbrev pub ticked : Round → List Client → Ticked
  ticked t idle = record {
    clients = t.pending ++ (t.finished ++ idle);
    scheduled = t.left.more || t.left.to_write == 0 || t.left.to_read == 0;
  }

  -- `transfer`: `msecs` is the time since the last transfer, at most 1000. No value stands for an
  -- overflow of the budgets.
  unfoldable pub transfer : ℕ → ℕ → List Client → Option Ticked
  unfolding rounds split
  transfer down_limit msecs clients =
      let (pending, idle) = split clients in
      let quota : Option (ℕ × ℕ) = budgets up_limit down_limit (min 1000 msecs) in
      elim (is_empty clients) [
        | true ↦ some (record { clients = clients; scheduled = false })
        | false ↦ elim quota [
          | none ↦ none
          | some (w, r) ↦
              let ran : Option Round =
                rounds (suc (w + r)) pending (record { to_write = w; to_read = r; more = false }) in
              if w == 0 && r == 0
              then some (record { clients = clients; scheduled = true })
              else if is_empty pending
              then some (record { clients = clients; scheduled = false })
              else elim ran [ none ↦ none | some t ↦ some (ticked t idle) ]
        ]
      ]
