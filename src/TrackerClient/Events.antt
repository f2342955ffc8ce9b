-- ===== src/TrackerClient/Events.antt =====
-- What src/trackerclient.cpp tells the tracker over the life of a download: the events of its
-- requests.
use mathlib.Core.List.{map-append}
use uenclient.Common.{
  ℕ, ◌+◌, ◌≡◌, ◌≢◌, refl, sym, ap, ◌∙◌, Bool, true, false, Option, some, List, [], ◌∷◌, ◌++◌, map,
  ap₂, append_assoc, Bytes, codes, All, All-append, subst, arith, if◌then◌else◌, Bool-cases,
  Option-cases, inl, inr,
}
use uenclient.Bencode.Value.{Entries, contains}
use uenclient.Bencode.Parser
use uenclient.Bencode.Parser.{Outcome, done, refused, fault, out_of_fuel}
use uenclient.MetaInfo.Info.{MetaInfo}
use uenclient.TrackerClient.State.{
  Tools, Download, Event, completed, started, stopped, Request, Tracker, new_tracker,
}
use uenclient.TrackerClient.Query.{
  event_of, note_event, request_of, fetch_peer_list, start_seeding, stop, timer_event, start,
}
use uenclient.TrackerClient.Reply.{
  take_warning, take_id, take_interval, take_peers, take_dictionary, take_outcome,
  http_request_done,
}

abbrev pub announces : Option Event → ℕ
announces (some started) = 1
announces _ = 0

-- How many requests say that the download starts.
abbrev pub count_started : List Request → ℕ
count_started [] = 0
count_started (r ∷ rs) = announces r.event + count_started rs

abbrev pub events : Tracker → List (Option Event)
events t = map (λ (r : Request). r.event) t.requests

count_started-append :
    (rs ss : List Request) → count_started (rs ++ ss) ≡ count_started rs + count_started ss
count_started-append [] ss = omega arith
count_started-append (r ∷ rs) ss = omega (arith, count_started-append rs ss)

-- What a reply leaves alone.
record Keeps (t u : Tracker) : Type 0 where
  same_requests : u.requests ≡ t.requests
  same_first : u.first_tracker_request ≡ t.first_tracker_request
  same_last : u.last_tracker_request ≡ t.last_tracker_request

module _ (tools : Tools) where
  take_warning-Keeps : (m : Entries) (t : Tracker) → Keeps t (take_warning tools m t)
  unfolding take_warning
  take_warning-Keeps m t = ground arith

  take_id-Keeps : (m : Entries) (t : Tracker) → Keeps t (take_id tools m t)
  unfolding take_id
  take_id-Keeps m t = ground arith

  take_interval-Keeps : (m : Entries) (t u : Tracker) → take_interval tools m t ≡ some u → Keeps t u
  unfolding take_interval
  take_interval-Keeps m t u e = ground arith

  take_peers-Keeps : (m : Entries) (t u : Tracker) → take_peers tools m t ≡ some u → Keeps t u
  unfolding take_peers
  take_peers-Keeps m t u e = ground arith

  Keeps-trans : {t u v : Tracker} → Keeps t u → Keeps u v → Keeps t v
  Keeps-trans h k = record {
    same_requests = k.same_requests ∙ h.same_requests;
    same_first = k.same_first ∙ h.same_first;
    same_last = k.same_last ∙ h.same_last;
  }

  take_dictionary-Keeps :
      (m : Entries) (t u : Tracker) → take_dictionary tools m t ≡ some u → Keeps t u
  unfolding take_dictionary
  take_dictionary-Keeps m t u e = elim (Bool-cases (contains m (codes "failure reason"))) [
    | inl b ↦ ground (arith, b)
    | inr b ↦
        let t' : Tracker = take_id tools m (take_warning tools m t) in
        elim (Option-cases (take_interval tools m t')) [
          | inl none_left ↦ cc (rw (b, none_left) at e)
          | inr (v, set) ↦ Keeps-trans (take_warning-Keeps m t) (
              Keeps-trans (take_id-Keeps m (take_warning tools m t)) (
                Keeps-trans (take_interval-Keeps m t' v set)
                  (take_peers-Keeps m v u (rw (b, set) at e))))
        ]
  ]

  take_outcome-Keeps :
      (t u : Tracker) (o : Outcome Entries) → take_outcome tools t o ≡ some u → Keeps t u
  unfolding take_outcome
  take_outcome-Keeps t u (done m s) e = take_dictionary-Keeps m t u e
  take_outcome-Keeps t u (refused s) e = ground arith
  take_outcome-Keeps t u fault e = cc
  take_outcome-Keeps t u out_of_fuel e = cc

  http_request_done-Keeps :
      (error : Bool) (response : Bytes) (t u : Tracker)
      → http_request_done tools error response t ≡ some u
      → Keeps t u
  unfolding http_request_done
  http_request_done-Keeps error response t u e =
      ground (arith, take_outcome-Keeps t u (Parser.parse response))

  -- The event loop's calls, in any order.
  pub data Step (t : Tracker) : Tracker → Type 0 where
    begin : (m : MetaInfo) → Step t (start m t)
    fetch : (d : Download) → Step t (fetch_peer_list tools d t)
    seed : (d : Download) → Step t (start_seeding tools d t)
    tick : (unconnected : Bool) (d : Download) → Step t (timer_event tools d unconnected t)
    halt : (d : Download) → Step t (stop tools d t)
    reply :
        (error : Bool) (response : Bytes) (u : Tracker)
        → http_request_done tools error response t ≡ some u
        → Step t u

  pub data Reaches (t : Tracker) : Tracker → Type 0 where
    here : Reaches t t
    next : {u v : Tracker} → Reaches t u → Step u v → Reaches t v

  -- One request says that the download starts as soon as there was room for it, and a request says
  -- that it stops only after `stop`.
  pub record Announced (t : Tracker) : Type 0 where
    pub once : count_started t.requests ≡ (if t.first_tracker_request then 0 else 1)
    pub in_order :
        t.last_tracker_request ≡ false → All (λ (r : Request). r.event ≢ some stopped) t.requests

  event_of-stopped :
      (b : Bool) (t : Tracker) → t.last_tracker_request ≡ false → event_of b t ≢ some stopped
  unfolding event_of
  event_of-stopped b t h e = ground arith

  fetch-once :
      (d : Download) (t : Tracker)
      → count_started t.requests ≡ (if t.first_tracker_request then 0 else 1)
      → count_started (fetch_peer_list tools d t).requests
        ≡ (if (fetch_peer_list tools d t).first_tracker_request then 0 else 1)
  unfolding fetch_peer_list note_event request_of event_of
  fetch-once d t h = count_started-append t.requests (request_of tools d t ∷ []) ∙ ground (arith, h)

  fetch-last :
      (d : Download) (t : Tracker)
      → (fetch_peer_list tools d t).last_tracker_request ≡ t.last_tracker_request
  unfolding fetch_peer_list note_event
  fetch-last d t = ground arith

  fetch-Announced :
      (d : Download) (t : Tracker) → Announced t → Announced (fetch_peer_list tools d t)
  unfolding fetch_peer_list request_of
  fetch-Announced d t h = record {
    once = fetch-once d t h.once;
    in_order = λ e.
        let going_on : t.last_tracker_request ≡ false = sym (fetch-last d t) ∙ e in
        All-append (λ (r : Request). r.event ≢ some stopped) t.requests (request_of tools d t ∷ [])
          (h.in_order going_on) (event_of-stopped d.is_seeding t going_on, tt);
  }

  Keeps-Announced : (t u : Tracker) → Keeps t u → Announced t → Announced u
  Keeps-Announced t u k h = record {
    once =
        ap count_started k.same_requests
        ∙ h.once
        ∙ ap (λ (b : Bool). if b then 0 else 1) (sym k.same_first);
    in_order = λ e.
        subst (λ (rs : List Request). All (λ (r : Request). r.event ≢ some stopped) rs)
          (sym k.same_requests) (h.in_order (sym k.same_last ∙ e));
  }

  Step-Announced : {t u : Tracker} → Step t u → Announced t → Announced u
  unfolding start start_seeding stop timer_event
  Step-Announced (begin m) h = record { once = h.once; in_order = h.in_order }
  Step-Announced {t} (fetch d) h = fetch-Announced d t h
  Step-Announced {t} (seed d) h =
      fetch-Announced d (record t { first_seeding = true })
        (record { once = h.once; in_order = h.in_order })
  Step-Announced {t} (tick true d) h = fetch-Announced d t h
  Step-Announced {t} (tick false d) h = h
  Step-Announced {t} (halt d) h =
      fetch-Announced d (record t { last_tracker_request = true })
        (record { once = h.once; in_order = λ e. cc })
  Step-Announced {t} (reply error response u e) h =
      Keeps-Announced t u (http_request_done-Keeps error response t u e) h

  Reaches-Announced : {t u : Tracker} → Reaches t u → Announced t → Announced u
  Reaches-Announced here h = h
  Reaches-Announced (next r s) h = Step-Announced s (Reaches-Announced r h)

  -- Whatever calls follow each other on a new tracker client: at most one of its requests says that
  -- the download starts, none does only as long as no request was free to say it, and no request
  -- says that it stops before `stop` was called.
  pub Reaches-new_tracker : (m : MetaInfo) {t : Tracker} → Reaches (new_tracker m) t → Announced t
  Reaches-new_tracker m r = Reaches-Announced r (record { once = refl; in_order = λ e. tt })

  fetch-events :
      (d : Download) (t : Tracker)
      → events (fetch_peer_list tools d t) ≡ events t ++ event_of d.is_seeding t ∷ []
  unfolding fetch_peer_list request_of
  fetch-events d t = map-append (λ (r : Request). r.event) t.requests (request_of tools d t ∷ [])

  -- A download that is complete when the tracker client starts is announced as completed first, and
  -- as started by the next request.
  pub fetch_peer_list-completed :
      (d : Download) (t : Tracker)
      → d.is_seeding ≡ true
      → t.first_seeding ≡ true
      → t.first_tracker_request ≡ true
      → events (fetch_peer_list tools d (fetch_peer_list tools d t))
        ≡ events t ++ some completed ∷ some started ∷ []
  fetch_peer_list-completed d t h k l =
      let first : event_of d.is_seeding t ≡ some completed = unfold event_of in rw (h, k) in
      let second : event_of d.is_seeding (fetch_peer_list tools d t) ≡ some started =
        unfold event_of fetch_peer_list note_event in rw (h, k, l) in
      fetch-events d (fetch_peer_list tools d t)
      ∙ ap₂ (λ (es : List (Option Event)) (e : Option Event). es ++ e ∷ []) (fetch-events d t)
          second
      ∙ append_assoc (events t) (event_of d.is_seeding t ∷ []) (some started ∷ [])
      ∙ ap (λ (e : Option Event). events t ++ e ∷ some started ∷ []) first

  -- A download that stops before its first request was made is announced as started, not as stopped.
  pub stop-started :
      (d : Download) (t : Tracker)
      → d.is_seeding ≡ false
      → t.first_tracker_request ≡ true
      → events (stop tools d t) ≡ events t ++ some started ∷ []
  unfolding stop
  stop-started d t h k =
      let t' : Tracker = record t { last_tracker_request = true } in
      let e : event_of d.is_seeding t' ≡ some started = unfold event_of in rw (h, k) in
      fetch-events d t' ∙ ap (λ (o : Option Event). events t ++ o ∷ []) e
