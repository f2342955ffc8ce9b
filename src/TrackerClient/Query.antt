-- ===== src/TrackerClient/Query.antt =====
-- What src/trackerclient.cpp asks the tracker: `start`, `startSeeding`, `stop`, `timerEvent` and
-- `fetchPeerList`.
use uenclient.Common.{
  ℕ, ◌+◌, ◌-◌, ◌^◌, Bool, true, false, not, ◌&&◌, Option, none, some, [], ◌∷◌, ◌++◌, Bytes, codes,
  ℤ, pos, negsuc, ◌-ℤ◌, is_empty, ltb, ◌==◌, if◌then◌else◌,
}
use uenclient.Common.Digits.{hex_before, right, right_justified}
use uenclient.MetaInfo.Variant.{Text, low_word, to_signed}
use uenclient.MetaInfo.Info.{MetaInfo, single_file_form, multi_file_form, sum_lengths, total_size}
use uenclient.TrackerClient.State.{
  Tools, Download, Event, completed, started, stopped, Request, Tracker,
}

abbrev pub starts_with : Text → Text → Bool
starts_with [] text = true
starts_with (c ∷ cs) [] = false
starts_with (c ∷ cs) (x ∷ text) = x == c && starts_with cs text

-- `text.mid(text.indexOf(part), -1)`, if the text contains the part.
unfoldable pub from_part : Text → Text → Option Text
from_part part [] = none
from_part part (x ∷ text) =
    let rest = from_part part text in if starts_with part (x ∷ text) then some (x ∷ text) else rest

unfoldable pub passkey_of : Text → Text
unfolding from_part
passkey_of url = elim (from_part (codes "?passkey") url) [
  | none ↦ codes "?"
  | some text ↦ text ++ codes "&"
]

-- `infoHash[i]`, a signed char, as a 64-bit pattern: so `QString::number` writes it to the base 16.
unfoldable pub as_word : ℕ → ℕ
as_word c = if ltb c 128 then c else 2 ^ 64 - 256 + c

unfoldable pub encoded_byte : ℕ → Bytes
unfolding as_word hex_before right right_justified
encoded_byte c = b'%' ∷ right_justified 2 b'0' (right 2 (hex_before 16 (as_word c) []))

unfoldable pub encoded_sum : Bytes → Bytes
unfolding encoded_byte
encoded_sum [] = []
encoded_sum (c ∷ cs) = encoded_byte c ++ encoded_sum cs

-- `qMax<int>(0, …)`: the number is made an `int` first.
unfoldable pub not_negative : ℤ → ℤ
not_negative (pos n) = pos n
not_negative (negsuc n) = pos 0

unfoldable pub left_of : ℤ → ℤ → ℤ
unfolding not_negative low_word to_signed ◌-ℤ◌
left_of total downloaded = not_negative (to_signed (low_word (total -ℤ downloaded)))

-- `if (seeding && firstSeeding) … else if (firstTrackerRequest) … else if (lastTrackerRequest) …`.
unfoldable pub event_of : Bool → Tracker → Option Event
event_of seeding t =
    if seeding && t.first_seeding
    then some completed
    else if t.first_tracker_request
    then some started
    else if t.last_tracker_request
    then some stopped
    else none

-- The flags that the choice of the event resets.
unfoldable pub note_event : Bool → Tracker → Tracker
note_event seeding t =
    if seeding && t.first_seeding
    then record t { first_seeding = false }
    else if t.first_tracker_request
    then record t { first_tracker_request = false }
    else t

abbrev pub event_text : Option Event → Bytes
event_text none = []
event_text (some completed) = codes "&event=completed"
event_text (some started) = codes "&event=started"
event_text (some stopped) = codes "&event=stopped"

abbrev pub total_or : ℤ → Option ℤ → ℤ
total_or d none = d
total_or d (some z) = z

abbrev pub port_or : ℕ → Option ℕ → ℕ
port_or d none = d
port_or d (some n) = n

module _ (tools : Tools) (d : Download) where
  -- "&downloaded=…&left=…".
  unfoldable pub progress_text : Tracker → Bytes
  unfolding left_of
  progress_text t =
      if not t.first_seeding
      then codes "&downloaded=0&left=0"
      else codes "&downloaded="
        ++ tools.conversions.text_of d.downloaded_bytes
        ++ codes "&left="
        ++ tools.conversions.text_of (
            if d.is_seeding
            then pos 0
            else left_of (total_or tools.uninitialised (total_size t.meta_info)) d.downloaded_bytes)

  unfoldable pub query_of : Tracker → Bytes
  unfolding passkey_of encoded_sum progress_text event_of
  query_of t =
      let text = t.meta_info.announce in
      tools.to_latin1 (tools.url_of text).path
      ++ tools.to_latin1 (passkey_of text)
      ++ codes "info_hash="
      ++ encoded_sum d.info_hash
      ++ codes "&peer_id="
      ++ d.client_id
      ++ codes "&port="
      ++ tools.conversions.text_of (pos d.server_port)
      ++ codes "&compact=1&uploaded="
      ++ tools.conversions.text_of d.uploaded_bytes
      ++ progress_text t
      ++ event_text (event_of d.is_seeding t)
      ++ (if is_empty t.tracker_id then [] else codes "&trackerid=" ++ t.tracker_id)

  unfoldable pub request_of : Tracker → Request
  unfolding query_of
  request_of t =
      let url = tools.url_of t.meta_info.announce in
      record {
        host = url.host;
        port = port_or 80 url.port;
        user = if is_empty url.user_name then none else some (url.user_name, url.password);
        query = query_of t;
        event = event_of d.is_seeding t;
      }

  unfoldable pub fetch_peer_list : Tracker → Tracker
  unfolding request_of note_event
  fetch_peer_list t =
      let t' = note_event d.is_seeding t in record t' { requests = t.requests ++ request_of t ∷ [] }

  unfoldable pub start_seeding : Tracker → Tracker
  unfolding fetch_peer_list
  start_seeding t = fetch_peer_list (record t { first_seeding = true })

  unfoldable pub stop : Tracker → Tracker
  unfolding fetch_peer_list
  stop t = fetch_peer_list (record t { last_tracker_request = true })

  -- The request timer's event; `unconnected` says that no request is under way.
  unfoldable pub timer_event : Bool → Tracker → Tracker
  unfolding fetch_peer_list
  timer_event unconnected t = if unconnected then fetch_peer_list t else t

-- `start`; the event loop then calls `fetchPeerList`. A form that was never set is taken for the
-- second one.
unfoldable pub start : MetaInfo → Tracker → Tracker
unfolding sum_lengths
start m t = record t {
  meta_info = m;
  length_of = elim m.file_form [
    | some single_file_form ↦ m.single_file.length_of
    | some multi_file_form ↦ sum_lengths t.length_of m.multi_files
    | none ↦ sum_lengths t.length_of m.multi_files
  ];
}
