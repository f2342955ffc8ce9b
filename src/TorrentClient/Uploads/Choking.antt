-- ===== src/TorrentClient/Uploads/Choking.antt =====
-- What a choke, an unchoke or an abort of one client changes.
use uenclient.Common.{
  ℕ, ◌%◌, ◌≡◌, ◌≢◌, refl, sym, ap, ◌∙◌, Bool, true, false, not, ◌||◌, Option, none, some, List, [],
  ◌∷◌, ◌==◌, ==_iff, if◌then◌else◌, Bool-cases, inl, inr, if-holds,
}
use uenclient.PeerWire.Client.{Client, Slots, kill_pending_request_timer}
use uenclient.PeerWire.Messages.{choke_peer, unchoke_peer}
use uenclient.TorrentClient.State.{Connection, lookup_connection, call_client}
use uenclient.TorrentClient.Uploads.{unchoke, choke_or_abort}

-- The peer is unchoked.
abbrev pub is_served : Option Connection → Bool
is_served none = false
is_served (some k) = not k.client.choking_peer

-- The peer is choked or its connection is given up.
abbrev pub is_idle : Option Connection → Bool
is_idle none = true
is_idle (some k) = k.client.choking_peer || k.client.aborted

abbrev pub called : (Client → Client) → Option Connection → Option Connection
called f none = none
called f (some k) = some (record k { client = f k.client })

pub lookup_connection-call_client_self :
    (n : ℕ) (f : Client → Client) (cs : List Connection)
    → lookup_connection n (call_client n f cs) ≡ called f (lookup_connection n cs)
lookup_connection-call_client_self n f [] = refl
lookup_connection-call_client_self n f (c ∷ cs) = elim (Bool-cases (c.number == n)) [
  | inl e ↦ rw (e, e)
  | inr e ↦ rw (e, e) (lookup_connection-call_client_self n f cs)
]

pub lookup_connection-call_client :
    (m n : ℕ) (f : Client → Client) (cs : List Connection)
    → m ≢ n
    → lookup_connection m (call_client n f cs) ≡ lookup_connection m cs
lookup_connection-call_client m n f [] h = refl
lookup_connection-call_client m n f (c ∷ cs) h = elim (Bool-cases (c.number == m)) [
  | inl g ↦ elim (Bool-cases (c.number == n)) [
    | inl e ↦ absurd (h (sym ((==_iff c.number m).0 g) ∙ (==_iff c.number n).0 e))
    | inr e ↦ rw (e, g)
  ]
  | inr g ↦ elim (Bool-cases (c.number == n)) [
    | inl e ↦ rw (e, g) (lookup_connection-call_client m n f cs h)
    | inr e ↦ rw (e, g) (lookup_connection-call_client m n f cs h)
  ]
]

kill_pending_request_timer-choking_peer :
    (c : Client) → (kill_pending_request_timer c).choking_peer ≡ c.choking_peer
kill_pending_request_timer-choking_peer c =
    if-holds (λ (k : Client). k.choking_peer ≡ c.choking_peer) (c.pending_request_timer == 0)
      (λ _. refl) (λ _. refl)

or_true : (b : Bool) → (b || true) ≡ true
or_true true = refl
or_true false = refl

module _ (emit : Slots) where
  unchoke_peer-choking_peer : (c : Client) → (unchoke_peer emit c).choking_peer ≡ false
  unfolding unchoke_peer
  unchoke_peer-choking_peer c = kill_pending_request_timer-choking_peer _

  choke_peer-choking_peer : (c : Client) → (choke_peer emit c).choking_peer ≡ true
  unfolding choke_peer
  choke_peer-choking_peer c = refl

  unchoke-choking_peer : (c : Client) → (unchoke emit c).choking_peer ≡ false
  unfolding unchoke
  unchoke-choking_peer c = elim (Bool-cases c.choking_peer) [
    | inl e ↦
        ap (λ (b : Bool). (if b then unchoke_peer emit c else c).choking_peer) e
        ∙ unchoke_peer-choking_peer c
    | inr e ↦ ap (λ (b : Bool). (if b then unchoke_peer emit c else c).choking_peer) e ∙ e
  ]

  choke_or_abort-idle :
      (draw : ℕ) (c : Client)
      → ((choke_or_abort emit draw c).choking_peer || (choke_or_abort emit draw c).aborted) ≡ true
  unfolding choke_or_abort
  choke_or_abort-idle draw c =
      if-holds (λ (k : Client). (k.choking_peer || k.aborted) ≡ true) c.choking_peer
        (λ e. ap (λ (b : Bool). b || c.aborted) e)
        (λ _.
          if-holds (λ (k : Client). (k.choking_peer || k.aborted) ≡ true) (draw % 10 == 0)
            (λ _. or_true c.choking_peer)
            (λ _. ap (λ (b : Bool). b || (choke_peer emit c).aborted) (choke_peer-choking_peer c)))

  pub unchoke-is_served :
      (n : ℕ) (cs : List Connection) (k : Connection)
      → lookup_connection n cs ≡ some k
      → is_served (lookup_connection n (call_client n (unchoke emit) cs)) ≡ true
  unchoke-is_served n cs k h =
      ap is_served (lookup_connection-call_client_self n (unchoke emit) cs)
      ∙ ap (λ (o : Option Connection). is_served (called (unchoke emit) o)) h
      ∙ ap not (unchoke-choking_peer k.client)

  pub choke_or_abort-is_idle :
      (draw n : ℕ) (cs : List Connection) (k : Connection)
      → lookup_connection n cs ≡ some k
      → is_idle (lookup_connection n (call_client n (choke_or_abort emit draw) cs)) ≡ true
  choke_or_abort-is_idle draw n cs k h =
      ap is_idle (lookup_connection-call_client_self n (choke_or_abort emit draw) cs)
      ∙ ap (λ (o : Option Connection). is_idle (called (choke_or_abort emit draw) o)) h
      ∙ choke_or_abort-idle draw k.client
