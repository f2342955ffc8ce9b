-- ===== src/TorrentServer/Matching.antt =====
-- To which torrent src/torrentserver.cpp gives a connection whose handshake has arrived.
use uenclient.Common.{
  ℕ, ◌≡◌, ◌≢◌, refl, ap, subst, ◌∙◌, true, false, Option, none, some, List, [], ◌∷◌, ◌++◌, Bytes,
  same_bytes, same_bytes_iff, All, arith, Bool-cases, inl, inr, ◌⊎◌,
}
use uenclient.Common.Sets
use uenclient.Common.Sets.{contains, contains-remove}
use uenclient.TorrentServer.{
  Client, Server, is_active, wants, find_client, settle, remove_peer, process_info_hash,
}

-- The torrent is active and has the hash.
pub record Serves (hash : Bytes) (c : Client) : Type 0 where
  pub active : is_active c.state ≡ true
  pub same_hash : c.info_hash ≡ hash

-- The torrent is not active, or its hash is another.
abbrev pub DoesNotServe : Bytes → Client → Type 0
DoesNotServe hash c = (is_active c.state ≡ false) ⊎ (c.info_hash ≢ hash)

wants-Serves : (hash : Bytes) (c : Client) → wants hash c ≡ true → Serves hash c
wants-Serves hash c h = elim (Bool-cases (is_active c.state)) [
  | inl e ↦ record { active = e; same_hash = (same_bytes_iff c.info_hash hash).0 (rw e at h) }
  | inr e ↦ cc (rw e at h)
]

wants-DoesNotServe : (hash : Bytes) (c : Client) → wants hash c ≡ false → DoesNotServe hash c
wants-DoesNotServe hash c h = elim (Bool-cases (is_active c.state)) [
  | inl e ↦ inr (λ same.
      let no_match : same_bytes c.info_hash hash ≡ false = rw e at h in
      let match : same_bytes c.info_hash hash ≡ true = (same_bytes_iff c.info_hash hash).1 same in
      cc)
  | inr e ↦ inl e
]

-- The first torrent that serves the hash, and what stands before it.
pub record IsFirst (hash : Bytes) (cs : List Client) (c : Client) : Type 0 where
  pub before : List Client
  pub after : List Client
  pub place : cs ≡ before ++ c ∷ after
  pub serves : Serves hash c
  pub no_earlier : All (DoesNotServe hash) before

find_client-IsFirst :
    (hash : Bytes) (cs : List Client) (c : Client)
    → find_client hash cs ≡ some c
    → IsFirst hash cs c
unfolding find_client
find_client-IsFirst hash [] c h = cc
find_client-IsFirst hash (d ∷ cs) c h = elim (Bool-cases (wants hash d)) [
  | inl e ↦
      let same : d ≡ c = cc (rw e at h) in
      record {
        before = [];
        after = cs;
        place = ap (λ (x : Client). x ∷ cs) same;
        serves = subst (Serves hash) same (wants-Serves hash d e);
        no_earlier = tt;
      }
  | inr e ↦
      let rest = find_client-IsFirst hash cs c (rw e at h) in
      record {
        before = d ∷ rest.before;
        after = rest.after;
        place = ap (◌∷◌ d) rest.place;
        serves = rest.serves;
        no_earlier = (wants-DoesNotServe hash d e, rest.no_earlier);
      }
]

find_client-none :
    (hash : Bytes) (cs : List Client) → find_client hash cs ≡ none → All (DoesNotServe hash) cs
unfolding find_client
find_client-none hash [] h = tt
find_client-none hash (d ∷ cs) h = elim (Bool-cases (wants hash d)) [
  | inl e ↦ cc (rw e at h)
  | inr e ↦ (wants-DoesNotServe hash d e, find_client-none hash cs (rw e at h))
]

-- The connection is given to the first torrent.
pub record IsHanded (peer : ℕ) (hash : Bytes) (s t : Server) : Type 0 where
  pub to : Client
  pub first : IsFirst hash s.clients to
  pub given : t.handed ≡ s.handed ++ (peer, to.number) ∷ []
  pub kept : t.manager ≡ s.manager

-- The connection is forgotten.
pub record IsDropped (peer : ℕ) (hash : Bytes) (s t : Server) : Type 0 where
  pub none_serves : All (DoesNotServe hash) s.clients
  pub unmanaged : contains t.manager.connections peer ≡ false
  pub no_socket : contains t.sockets peer ≡ false
  pub handed_as_before : t.handed ≡ s.handed

removed : (ms : List ℕ) (n : ℕ) → contains (Sets.remove ms n) n ≡ false
removed ms n = contains-remove ms n n ∙ ground arith

-- What the found torrent, or none, makes of the connection.
settle_lem :
    (peer : ℕ) (hash : Bytes) (s : Server) (o : Option Client)
    → find_client hash s.clients ≡ o
    → (IsHanded peer hash s (settle peer s o) ⊎ IsDropped peer hash s (settle peer s o))
      × (contains (settle peer s o).waiting peer ≡ false)
unfolding settle remove_peer
settle_lem peer hash s none e = (
  inr record {
    none_serves = find_client-none hash s.clients e;
    unmanaged = removed s.manager.connections peer;
    no_socket = removed s.sockets peer;
    handed_as_before = refl;
  },
  removed s.waiting peer,
)
settle_lem peer hash s (some c) e = (
  inl record { to = c; first = find_client-IsFirst hash s.clients c e; given = refl; kept = refl },
  removed s.waiting peer,
)

-- A connection whose handshake names a hash is given to the first torrent that is active and has the
-- hash, and to no other; if there is none, neither the connection manager nor the rate controller
-- keeps it. In both cases the server waits for it no longer.
pub process_info_hash_lem :
    (peer : ℕ) (hash : Bytes) (s : Server)
    → (IsHanded peer hash s (process_info_hash peer hash s)
        ⊎ IsDropped peer hash s (process_info_hash peer hash s))
      × (contains (process_info_hash peer hash s).waiting peer ≡ false)
unfolding process_info_hash
process_info_hash_lem peer hash s = settle_lem peer hash s (find_client hash s.clients) refl
