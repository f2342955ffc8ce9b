-- ===== src/TorrentClient/Serving/Rates.antt =====
-- The transfer rates of src/torrentclient.cpp: `peerWireBytesWritten`, `peerWireBytesReceived` and
-- the transfer rate timer of `timerEvent`.
use uenclient.Common.{
  ℕ, ◌+◌, ◌/◌, Bool, true, false, ◌&&◌, List, [], ◌∷◌, ◌++◌, length, take, ◌==◌, if◌then◌else◌,
}
use uenclient.PeerWire.Transfer.{sum}

abbrev pub window : ℕ
window = 10

-- The rates of the last seconds, the latest first, the counters, and the signals: `dataSent` for
-- both directions, and the rates that are reported.
pub record Rates : Type 0 where
  pub upload_rate : List ℕ
  pub download_rate : List ℕ
  pub uploaded_bytes : ℕ
  pub downloaded_bytes : ℕ
  pub timer : Bool
  pub data_sent : List ℕ
  pub reported : List (ℕ × ℕ)

abbrev pub add_first : ℕ → List ℕ → List ℕ
add_first size [] = []
add_first size (r ∷ rs) = (r + size) ∷ rs

unfoldable pub peer_wire_bytes_written : ℕ → Rates → Rates
peer_wire_bytes_written size r = record r {
  timer = true;
  upload_rate = add_first size r.upload_rate;
  uploaded_bytes = r.uploaded_bytes + size;
  data_sent = r.data_sent ++ size ∷ [];
}

unfoldable pub peer_wire_bytes_received : ℕ → Rates → Rates
peer_wire_bytes_received size r = record r {
  timer = true;
  download_rate = add_first size r.download_rate;
  downloaded_bytes = r.downloaded_bytes + size;
  data_sent = r.data_sent ++ size ∷ [];
}

-- The rates move on by one second.
unfoldable pub shift_rates : List ℕ → List ℕ
shift_rates rs = take (length rs) (0 ∷ rs)

-- The transfer rate timer's event.
unfoldable pub report_rates : Rates → Rates
unfolding shift_rates
report_rates r =
    let up = sum r.upload_rate / window in
    let down = sum r.download_rate / window in
    record r {
      upload_rate = shift_rates r.upload_rate;
      download_rate = shift_rates r.download_rate;
      reported = r.reported ++ (up, down) ∷ [];
      timer = if down == 0 && up == 0 then false else r.timer;
    }
