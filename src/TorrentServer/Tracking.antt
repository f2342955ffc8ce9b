-- ===== src/TorrentServer/Tracking.antt =====
-- What holds of the connections of src/torrentserver.cpp and src/connectionmanager.cpp, whatever
-- arrives.
use uenclient.Common.{
  ℕ, ◌≤◌, ◌≡◌, sym, ap, ◌∙◌, Bool, true, false, not, List, Bytes, arith, length, is_empty, ltb→lt,
  ◌==◌, ==_iff, Option, Bool-cases, inl, inr, if-holds, none, some,
}
use uenclient.Common.Sets
use uenclient.Common.Sets.{contains, contains-insert, contains-remove, length-insert, length-remove}
use uenclient.ConnectionManager.{
  can_add_connection, add_connection, remove_connection, max_connections,
}
use uenclient.TorrentServer.{
  Client, Server, add_client, remove_client, incoming_connection, remove_peer, find_client, settle,
  process_info_hash,
}

-- A torrent opens a connection of its own, as `connectToPeers` does.
abbrev pub outgoing : ℕ → Server → Server
outgoing peer s = record s {
  manager = add_connection peer s.manager;
  sockets = Sets.insert s.sockets peer;
}

-- A torrent loses a connection, as its `removeClient` has it.
abbrev pub lost : ℕ → Server → Server
lost peer s = record s {
  manager = remove_connection peer s.manager;
  sockets = Sets.remove s.sockets peer;
}

pub data Step (s : Server) : Server → Type 0 where
  torrent_added : (c : Client) → Step s (add_client c s)
  torrent_removed : (n : ℕ) → Step s (remove_client n s)
  arrived : (peer : ℕ) (is_set : Bool) → Step s (incoming_connection peer is_set s)
  failed : (peer : ℕ) → Step s (remove_peer peer s)
  identified : (peer : ℕ) (hash : Bytes) → Step s (process_info_hash peer hash s)
  opened : (peer : ℕ) → can_add_connection s.manager ≡ true → Step s (outgoing peer s)
  closed : (peer : ℕ) → contains s.waiting peer ≡ false → Step s (lost peer s)

pub data Reaches (s : Server) : Server → Type 0 where
  here : Reaches s s
  next : {t u : Server} → Reaches s t → Step t u → Reaches s u

-- No more connections than allowed, and whoever is waited for is known to the manager and to the
-- rate controller.
pub record IsTracked (s : Server) : Type 0 where
  pub few : length s.manager.connections ≤ max_connections
  pub managed : (k : ℕ) → contains s.waiting k ≡ true → contains s.manager.connections k ≡ true
  pub has_socket : (k : ℕ) → contains s.waiting k ≡ true → contains s.sockets k ≡ true

-- Adding the same number to two sets, or removing it from both, keeps one within the other.
insert-within :
    (xs ys : List ℕ) (n : ℕ)
    → ((k : ℕ) → contains xs k ≡ true → contains ys k ≡ true)
    → (k : ℕ) → contains (Sets.insert xs n) k ≡ true
    → contains (Sets.insert ys n) k ≡ true
insert-within xs ys n h k e = ground (arith, contains-insert xs n k, contains-insert ys n k, h k)

insert-within_right :
    (xs ys : List ℕ) (n : ℕ)
    → ((k : ℕ) → contains xs k ≡ true → contains ys k ≡ true)
    → (k : ℕ) → contains xs k ≡ true
    → contains (Sets.insert ys n) k ≡ true
insert-within_right xs ys n h k e = ground (arith, contains-insert ys n k, h k)

remove-within :
    (xs ys : List ℕ) (n : ℕ)
    → ((k : ℕ) → contains xs k ≡ true → contains ys k ≡ true)
    → (k : ℕ) → contains (Sets.remove xs n) k ≡ true
    → contains (Sets.remove ys n) k ≡ true
remove-within xs ys n h k e = ground (arith, contains-remove xs n k, contains-remove ys n k, h k)

remove-within_left :
    (xs ys : List ℕ) (n : ℕ)
    → ((k : ℕ) → contains xs k ≡ true → contains ys k ≡ true)
    → (k : ℕ) → contains (Sets.remove xs n) k ≡ true
    → contains ys k ≡ true
remove-within_left xs ys n h k e = ground (arith, contains-remove xs n k, h k)

-- A number that is in no way in the first set can be removed from the second.
remove-within_right :
    (xs ys : List ℕ) (n : ℕ)
    → contains xs n ≡ false
    → ((k : ℕ) → contains xs k ≡ true → contains ys k ≡ true)
    → (k : ℕ) → contains xs k ≡ true
    → contains (Sets.remove ys n) k ≡ true
remove-within_right xs ys n out h k e = elim (Bool-cases (n == k)) [
  | inl f ↦ cc (sym out ∙ ap (contains xs) ((==_iff n k).0 f) ∙ e)
  | inr f ↦ contains-remove ys n k ∙ rw f (h k e)
]

module _ (s : Server) (h : IsTracked s) where
  add-few :
      (peer : ℕ)
      → can_add_connection s.manager ≡ true
      → length (add_connection peer s.manager).connections ≤ max_connections
  unfolding can_add_connection add_connection
  add-few peer e = omega (
    arith,
    ltb→lt (length s.manager.connections) max_connections e,
    length-insert s.manager.connections peer,
  )

  -- A connection that arrives and is kept.
  kept-IsTracked :
      (peer : ℕ)
      → can_add_connection s.manager ≡ true
      → IsTracked (record s {
        manager = add_connection peer s.manager;
        sockets = Sets.insert s.sockets peer;
        waiting = Sets.insert s.waiting peer;
      })
  unfolding add_connection
  kept-IsTracked peer e = record {
    few = add-few peer e;
    managed = insert-within s.waiting s.manager.connections peer h.managed;
    has_socket = insert-within s.waiting s.sockets peer h.has_socket;
  }

  incoming_connection-IsTracked :
      (peer : ℕ) (is_set : Bool) → IsTracked (incoming_connection peer is_set s)
  unfolding incoming_connection
  incoming_connection-IsTracked peer false = h
  incoming_connection-IsTracked peer true = elim (Bool-cases (can_add_connection s.manager)) [
    | inl e ↦
        rw e (if-holds IsTracked (not (is_empty s.clients)) (λ _. kept-IsTracked peer e) (λ _. h))
    | inr e ↦ rw e h
  ]

  remove_peer-IsTracked : (peer : ℕ) → IsTracked (remove_peer peer s)
  unfolding remove_peer remove_connection
  remove_peer-IsTracked peer = record {
    few = omega (arith, h.few, length-remove s.manager.connections peer);
    managed = remove-within s.waiting s.manager.connections peer h.managed;
    has_socket = remove-within s.waiting s.sockets peer h.has_socket;
  }

  settle-IsTracked : (peer : ℕ) (o : Option Client) → IsTracked (settle peer s o)
  unfolding settle
  settle-IsTracked peer none = remove_peer-IsTracked peer
  settle-IsTracked peer (some c) = record {
    few = h.few;
    managed = remove-within_left s.waiting s.manager.connections peer h.managed;
    has_socket =
        remove-within_left s.waiting (Sets.insert s.sockets peer) peer
          (insert-within_right s.waiting s.sockets peer h.has_socket);
  }

Step-IsTracked : {s t : Server} → Step s t → IsTracked s → IsTracked t
unfolding add_client remove_client process_info_hash add_connection remove_connection
Step-IsTracked (torrent_added c) h = record {
  few = h.few;
  managed = h.managed;
  has_socket = h.has_socket;
}
Step-IsTracked (torrent_removed n) h = record {
  few = h.few;
  managed = h.managed;
  has_socket = h.has_socket;
}
Step-IsTracked {s} (arrived peer is_set) h = incoming_connection-IsTracked s h peer is_set
Step-IsTracked {s} (failed peer) h = remove_peer-IsTracked s h peer
Step-IsTracked {s} (identified peer hash) h = settle-IsTracked s h peer (find_client hash s.clients)
Step-IsTracked {s} (opened peer e) h = record {
  few = add-few s h peer e;
  managed = insert-within_right s.waiting s.manager.connections peer h.managed;
  has_socket = insert-within_right s.waiting s.sockets peer h.has_socket;
}
Step-IsTracked {s} (closed peer e) h = record {
  few = omega (arith, h.few, length-remove s.manager.connections peer);
  managed = remove-within_right s.waiting s.manager.connections peer e h.managed;
  has_socket = remove-within_right s.waiting s.sockets peer e h.has_socket;
}

-- However connections arrive, fail, name their torrent, are opened or are lost, and torrents come
-- and go: there are never more than 250 connections, and every connection whose handshake the server
-- waits for is known to the connection manager and to the rate controller.
pub Reaches-IsTracked : {s t : Server} → IsTracked s → Reaches s t → IsTracked t
Reaches-IsTracked h here = h
Reaches-IsTracked h (next r st) = Step-IsTracked st (Reaches-IsTracked h r)
