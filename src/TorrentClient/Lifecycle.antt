-- ===== src/TorrentClient/Lifecycle.antt =====
-- `start`, `stop`, `setPaused`, `handleFileError`, `fullVerificationDone` and `trackerStopped` of
-- src/torrentclient.cpp.
pub mod Stopping
use uenclient.Common.{
  ℕ, zero, suc, ◌+◌, Bool, true, false, not, Option, none, some, List, [], ◌∷◌, ◌++◌, map, length,
  replicate, get_or, ◌==◌, if◌then◌else◌,
}
use uenclient.Common.Sets
use uenclient.PeerWire.Messages.{count_true}
use uenclient.ConnectionManager.{Manager, remove_connection}
use uenclient.TorrentClient.State.{
  Phase, idle, paused, stopping, preparing, searching, seeding, TorrentPiece, Connection, Torrent,
  set_state,
}
use uenclient.TorrentClient.Receiving.{update_progress}
use uenclient.TorrentClient.PeerList.{Host}
use uenclient.TorrentClient.PeerList.Connecting.{Links, connect_to_peers}

-- `TorrentClient::Error`.
pub data Failure : Type 0 where
  unknown_error : Failure
  torrent_parse_error : Failure
  invalid_tracker_error : Failure
  file_error : Failure
  server_error : Failure

-- What a torrent does over its life: its links, how often it stands in the server's list, its
-- timers, whether the file manager has been started, the calls of the tracker client, and the
-- signals `stopped` and `error`.
pub record Session : Type 0 where
  pub links : Links
  pub registered : ℕ
  pub transfer_timer : Bool
  pub upload_timer : Bool
  pub verifying : Bool
  pub tracker_started : Bool
  pub tracker_stopped : Bool
  pub stopped_signals : ℕ
  pub errors : List Failure

abbrev pub phase_of : Session → Phase
phase_of s = s.links.torrent.state

abbrev pub enter : Phase → Session → Session
enter p s =
    let l : Links = s.links in record s { links = record l { torrent = set_state p l.torrent } }

-- `oldState > Preparing`.
abbrev pub is_after_preparing : Phase → Bool
is_after_preparing idle = false
is_after_preparing paused = false
is_after_preparing stopping = false
is_after_preparing preparing = false
is_after_preparing _ = true

-- `start`.
unfoldable pub start : Session → Session
start s = elim (phase_of s) [
  | idle ↦ record (enter preparing s) { registered = suc s.registered; verifying = true }
  | _ ↦ s
]

-- `foreach (PeerWireClient *client, d->connections)` in `stop`: the clients leave the rate controller
-- and the connection manager.
unfoldable pub release_each : List Connection → Links → Links
unfolding Sets.remove remove_connection
release_each [] l = l
release_each (k ∷ ks) l = release_each ks (record l {
  sockets = Sets.remove l.sockets k.number;
  manager = remove_connection k.number l.manager;
})

abbrev pub without_connections : Links → Links
without_connections l =
    let t : Torrent = l.torrent in record l { torrent = record t { connections = [] } }

-- What `stop` does before it looks at the tracker.
unfoldable pub wind_down : Session → Session
unfolding release_each
wind_down s =
    let s' = enter stopping s in
    record s' {
      registered = 0;
      transfer_timer = false;
      links = without_connections (release_each s.links.torrent.connections s'.links);
    }

-- The rest: the tracker is told, or the torrent is idle at once.
unfoldable pub halt : Session → Session
halt s =
    let down : Session = wind_down s in
    let now_idle : Session = enter idle down in
    if is_after_preparing (phase_of s)
    then record down { tracker_stopped = true }
    else record now_idle { stopped_signals = suc now_idle.stopped_signals }

-- `stop`.
unfoldable pub stop : Session → Session
unfolding wind_down
stop s = let halted : Session = halt s in elim (phase_of s) [ stopping ↦ s | _ ↦ halted ]

-- The signal of the tracker client goes on as the torrent's own: the slot `trackerStopped`, which
-- would make the torrent idle, is connected to nothing.
unfoldable pub on_tracker_stopped : Session → Session
on_tracker_stopped s = record s { stopped_signals = suc s.stopped_signals }

unfoldable pub tracker_stopped_slot : Session → Session
tracker_stopped_slot s =
    let i : Session = enter idle s in record i { stopped_signals = suc i.stopped_signals }

module _ (h : Host) where
  -- `setPaused`; `total` is the file manager's count of pieces.
  unfoldable pub set_paused : Bool → ℕ → Session → Session
  unfolding connect_to_peers
  set_paused true total s =
      let p : Session = enter paused s in
      record p { links = without_connections p.links; registered = 0 }
  set_paused false total s =
      let p : Session =
        enter (if count_true s.links.torrent.completed_pieces == total then seeding else searching)
          s in
      record p { links = connect_to_peers h p.links; registered = suc p.registered }

  -- `handleFileError`.
  unfoldable pub handle_file_error : ℕ → Session → Session
  unfolding set_paused
  handle_file_error total s =
      let p : Session = set_paused true total s in
      let failed : Session = record p { errors = p.errors ++ file_error ∷ [] } in
      elim (phase_of s) [ paused ↦ s | _ ↦ failed ]

-- The pending pieces that the checksums have shown to be complete go.
unfoldable pub keep_incomplete : List Bool → List TorrentPiece → List TorrentPiece
keep_incomplete bits [] = []
keep_incomplete bits (p ∷ ps) =
    let rest = keep_incomplete bits ps in if get_or bits p.index false then rest else p ∷ rest

unfoldable pub take_verified : List Bool → Torrent → Torrent
unfolding keep_incomplete update_progress
take_verified bits t =
    let u : Torrent = update_progress (record t {
      completed_pieces = bits;
      incomplete_pieces = map not bits;
      piece_count = length bits;
    }) in
    record u { pending_pieces = keep_incomplete bits t.pending_pieces }

-- `fullVerificationDone`, with the file manager's completed pieces, and whether the server listens
-- once it has tried its ports.
unfoldable pub full_verification_done : List Bool → Bool → Session → Session
unfolding take_verified
full_verification_done bits listening s =
    let l : Links = s.links in
    let v : Session = record s {
      links = record l { torrent = take_verified bits l.torrent };
      upload_timer = true;
    } in
    let running : Session =
      enter (if count_true bits == length bits then seeding else searching) v in
    if listening
    then record running { tracker_started = true }
    else record v { errors = v.errors ++ server_error ∷ [] }
