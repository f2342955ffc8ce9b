-- ===== src/TorrentClient/Uploads.antt =====
-- `scheduleUploads` of src/torrentclient.cpp: which peers are unchoked.
pub mod Choking
pub mod Ranking
mod Turns
pub mod Chosen
use uenclient.Common.{
  ℕ, zero, suc, ◌-◌, ◌%◌, Bool, true, false, not, ◌&&◌, Option, none, some, List, [], ◌∷◌, length,
  get_or, ltb, ◌==◌, if◌then◌else◌, map,
}
use uenclient.Common.Sets
use uenclient.PeerWire.Client.{Client, Slots, abort}
use uenclient.PeerWire.Messages.{choke_peer, unchoke_peer, count_true}
use uenclient.PeerWire.Transfer.{download_speed, upload_speed}
use uenclient.TorrentClient.State.{
  Phase, is_seeding, Connection, Torrent, lookup_connection, call_client,
}

abbrev pub max_uploads : ℕ
max_uploads = 4

-- The client is connected and is no seed.
unfoldable pub is_eligible : ℕ → Connection → Bool
is_eligible piece_count k = k.connected && not (count_true k.client.peer_pieces == piece_count)

-- The speed that clients are ordered by.
unfoldable pub speed : Phase → Client → ℕ
speed phase c = if is_seeding phase then upload_speed c else download_speed c

-- `transferSpeeds.insert`, in the order in which the map is read from its back: the fastest first,
-- and the clients of one speed as they were inserted.
unfoldable pub insert_speed : ℕ × ℕ → List (ℕ × ℕ) → List (ℕ × ℕ)
insert_speed e [] = e ∷ []
insert_speed e (d ∷ ds) =
    let rest = insert_speed e ds in if ltb d.0 e.0 then e ∷ d ∷ ds else d ∷ rest

-- `foreach (PeerWireClient *client, allClients)`: the speeds and numbers of the eligible clients.
unfoldable pub rank : Phase → ℕ → List (ℕ × ℕ) → List Connection → List (ℕ × ℕ)
unfolding insert_speed
rank phase count ranked [] = ranked
rank phase count ranked (k ∷ ks) =
    rank phase count
      (if is_eligible count k then insert_speed (speed phase k.client, k.number) ranked else ranked)
      ks

-- The variables of the loop: how many may still be unchoked, and `allClients`.
pub record Uploads : Type 0 where
  pub left : ℕ
  pub all_clients : List ℕ
  pub connections : List Connection
  pub draws : ℕ

-- `if (state & ChokingPeer) unchokePeer()`.
unfoldable pub unchoke : Slots → Client → Client
unchoke emit c = if c.choking_peer then unchoke_peer emit c else c

-- `if ((state & ChokingPeer) == 0) { if ((qrand() % 10) == 0) abort(); else chokePeer(); }`.
unfoldable pub choke_or_abort : Slots → ℕ → Client → Client
choke_or_abort emit draw c =
    if c.choking_peer then c else if draw % 10 == 0 then abort c else choke_peer emit c

module _ (emit : Slots) (qrand : ℕ → ℕ) where
  -- A turn within the first clients.
  unfoldable pub take_slot : ℕ → Uploads → Uploads
  take_slot n u = record u {
    left = u.left - 1;
    all_clients = Sets.remove u.all_clients n;
    connections = call_client n (unchoke emit) u.connections;
  }

  -- A turn behind them.
  unfoldable pub lose_slot : ℕ → Connection → Uploads → Uploads
  lose_slot n k u =
      let choking = k.client.choking_peer in
      record u {
        all_clients =
            if choking && k.client.peer_is_interested
            then u.all_clients
            else Sets.remove u.all_clients n;
        connections = call_client n (choke_or_abort emit (qrand u.draws)) u.connections;
        draws = if choking then u.draws else suc u.draws;
      }

  unfoldable pub upload_turn : ℕ → Uploads → Uploads
  upload_turn n u = elim (lookup_connection n u.connections) [
    | none ↦ u
    | some k ↦ if u.left == 0 then lose_slot n k u else take_slot n u
  ]

  -- `while (it.hasPrevious())`.
  unfoldable pub upload_turns : List (ℕ × ℕ) → Uploads → Uploads
  upload_turns [] u = u
  upload_turns ((v, n) ∷ es) u = upload_turns es (upload_turn n u)

  -- The optimistic unchoke: one random client of those that are left.
  unfoldable pub optimistic : Uploads → Uploads
  optimistic u = elim u.all_clients [
    | [] ↦ u
    | n ∷ ns ↦ record u {
      connections =
          call_client (get_or (n ∷ ns) (qrand u.draws % length (n ∷ ns)) 0) (unchoke emit)
            u.connections;
      draws = suc u.draws;
    }
  ]

  abbrev pub ranked : Torrent → List (ℕ × ℕ)
  ranked t = rank t.state t.piece_count [] t.connections

  abbrev pub all_of : Torrent → Uploads
  all_of t = record {
    left = max_uploads;
    all_clients = map (λ (k : Connection). k.number) t.connections;
    connections = t.connections;
    draws = t.draws;
  }

  -- `scheduleUploads`.
  unfoldable pub schedule_uploads : Torrent → Torrent
  schedule_uploads t =
      let u = optimistic (upload_turns (ranked t) (all_of t)) in
      record t { connections = u.connections; draws = u.draws }
