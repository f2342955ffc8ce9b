-- ===== src/TrackerClient/State.antt =====
-- The state of `TrackerClient`, src/trackerclient.cpp, and what it reads from others.
use uenclient.Common.{ℕ, Bool, true, false, Option, none, List, [], Bytes, ℤ, pos}
use uenclient.MetaInfo.Variant.{Text, Conversions}
use uenclient.MetaInfo.Info.{MetaInfo}

-- The parts of a `QUrl`; the port is `none` for -1.
pub record Url : Type 0 where
  pub path : Text
  pub host : Text
  pub port : Option ℕ
  pub user_name : Text
  pub password : Text

-- What Qt does: the conversions, a text as ASCII or Latin-1 bytes, an address and a url from a text.
-- `uninitialised` is the total size that a form which was never set gives.
pub record Tools : Type 0 where
  pub conversions : Conversions
  pub to_latin1 : Text → Bytes
  pub url_of : Text → Url
  pub address_of : Text → ℕ
  pub uninitialised : ℤ

-- What a request reads from the torrent client, the connection manager and the server.
pub record Download : Type 0 where
  pub info_hash : Bytes
  pub is_seeding : Bool
  pub uploaded_bytes : ℤ
  pub downloaded_bytes : ℤ
  pub client_id : Bytes
  pub server_port : ℕ

pub data Event : Type 0 where
  completed : Event
  started : Event
  stopped : Event

-- A request as it is handed to `http`.
pub record Request : Type 0 where
  pub host : Text
  pub port : ℕ
  pub user : Option (Text × Text)
  pub query : Bytes
  pub event : Option Event

-- A peer of the list: a `TorrentPeer` as far as the tracker describes it.
pub record TrackerPeer : Type 0 where
  pub id : Text
  pub address : ℕ
  pub port : ℕ

pub data Signal : Type 0 where
  connection_error : Signal
  failure : Text → Signal
  warning : Text → Signal
  peer_list_updated : List TrackerPeer → Signal
  tracker_stopped : Signal

-- The members. The request timer is its interval in milliseconds, `none` for -1; the requests and
-- signals of the object's life are lists.
pub record Tracker : Type 0 where
  pub length_of : ℤ
  pub request_timer : Option ℤ
  pub meta_info : MetaInfo
  pub tracker_id : Bytes
  pub peers : List TrackerPeer
  pub first_tracker_request : Bool
  pub last_tracker_request : Bool
  pub first_seeding : Bool
  pub requests : List Request
  pub signals : List Signal

-- The constructor.
abbrev pub new_tracker : MetaInfo → Tracker
new_tracker m = record {
  length_of = pos 0;
  request_timer = none;
  meta_info = m;
  tracker_id = [];
  peers = [];
  first_tracker_request = true;
  last_tracker_request = false;
  first_seeding = true;
  requests = [];
  signals = [];
}
