-- ===== src/Connection/Begins.antt =====
-- Fastcgi/Connection.h: FCGI_BEGIN_REQUEST in a read, from handleRead to the map.
use santiago_old.Prelude.{
  ℕ, ◌%◌, ◌≤◌, ◌≡◌, ◌∙◌, refl, ap, inl, inr, true, false, Bool-cases, none, some, List, [], ◌∷◌,
  arith, length, ◌==◌, ltb, if◌then◌else◌,
}
use santiago_old.Exec.{Outcome, ok}
use santiago_old.OrderedMap.{nat_key, find}
use santiago_old.Protocol
use santiago_old.PacketSocket.{PacketSocket}
use santiago_old.PacketSocket.Frames.{Packet}
use santiago_old.ConnectionData
use santiago_old.ConnectionData.{
  ConnectionData, Entry, Notice, quiet, request_ready, handle_stdin, handle_params, has_flag,
  check_for_request_ready,
}
use santiago_old.ConnectionData.Changes.{begins, perform}
use santiago_old.ConnectionData.Delivery.{new_entry, begun_map}
use santiago_old.RecordSocket.{
  handle_new_packet, on_begin_request, on_begin_body, begin_request_body,
}
use santiago_old.Connection.Arrival.{Stage, Serves, returned-Serves}
use santiago_old.Connection.{
  Connection, not_closed, callbacks, host, on_data, on_notice, handle_request_ready,
  new_request_call, AcceptorCall, handle_transceiver_event,
}

-- FCGI_BEGIN_REQUEST for a responder.
pub record IsBegin (i : ℕ) (p : Packet) : Type 0 where
  pub own : p.request_id ≡ i
  pub type : p.type ≡ Protocol.fcgi_begin_request
  pub flags : ℕ
  pub more : List ℕ
  pub body : p.content ≡ 0 ∷ Protocol.fcgi_responder ∷ flags ∷ more
  pub whole : 5 ≤ length more

-- The end of the begin of a request: without FCGI_KEEP_CONN the connection winds down.
abbrev after_begin : ℕ → Connection → Outcome (Unit {0}) × Connection
after_begin flags s =
    if flags % 2 == 0 then handle_transceiver_event Protocol.connection_wind_down s else (ok tt, s)

begin_body-runs :
    (i flags : ℕ) (more : List ℕ) (d : ConnectionData) (s : Connection)
    → 5 ≤ length more
    → perform (begins i) s.connection_data ≡ (ok quiet, d)
    → on_begin_request callbacks i (0 ∷ Protocol.fcgi_responder ∷ flags ∷ more) s
      ≡ after_begin flags (record s { connection_data = d })
unfolding on_begin_request on_begin_body begin_request_body perform on_data on_notice
begin_body-runs i flags more d s whole e =
    let long : ltb (length (0 ∷ Protocol.fcgi_responder ∷ flags ∷ more)) 8 ≡ false = ground arith in
    elim (Bool-cases (flags % 2 == 0)) [
      | inl ends ↦ rw (long, e, ends) refl
      | inr keeps ↦ rw (long, e, keeps) refl
    ]

begin-runs :
    (i : ℕ) (p : Packet) (d : ConnectionData) (s : Connection) (v : IsBegin i p)
    → perform (begins i) s.connection_data ≡ (ok quiet, d)
    → handle_new_packet callbacks false p.request_id p.type p.content s
      ≡ after_begin v.flags (record s { connection_data = d })
unfolding handle_new_packet
begin-runs i p d s v e = rw (v.type, v.own, v.body) (begin_body-runs i v.flags v.more d s v.whole e)

-- With a request in the map the connection stays open when it winds down.
winds_lem :
    (s : Connection)
    → not_closed s.state ≡ true
    → (length s.connection_data.request_map == 0) ≡ false
    → handle_transceiver_event Protocol.connection_wind_down s
      ≡ (ok tt, record s { state = santiago_old.Connection.closing })
winds_lem s live still = unfold handle_transceiver_event in ground (arith, live, still)

held_filled :
    (i : ℕ) (e : Entry) (m : ConnectionData.RequestMap)
    → find i m ≡ some e
    → (length m == 0) ≡ false
unfolding find
held_filled i e [] h = cc
held_filled i e (x ∷ m) h = ground arith

begun_filled :
    (i : ℕ) (d : ConnectionData)
    → find i d.request_map ≡ none
    → (length (perform (begins i) d).1.request_map == 0) ≡ false
begun_filled i d missing =
    held_filled i (new_entry i d) (perform (begins i) d).1.request_map (begun_map i d missing)

module _ (start : PacketSocket) where
  winds-Stage :
      (flags : ℕ) (d : ConnectionData) (calls : List AcceptorCall) (s : Connection)
      → not_closed s.state ≡ true
      → (length d.request_map == 0) ≡ false
      → Stage start d calls s
      → ((after_begin flags s).0 ≡ ok tt) × Stage start d calls (after_begin flags s).1
  winds-Stage flags d calls s live filled v = elim (Bool-cases (flags % 2 == 0)) [
    | inr keeps ↦ rw keeps (refl, v)
    | inl ends ↦
        let still : (length s.connection_data.request_map == 0) ≡ false = rw (v.at) filled in
        rw (ends, winds_lem s live still)
          (
            refl,
            record {
              at = v.at;
              called = v.called;
              is_open = v.is_open;
              socket = v.socket;
              strand = v.strand;
            },
          )
  ]

  begun_quiet :
      (i : ℕ) (d : ConnectionData)
      → find i d.request_map ≡ none
      → (perform (begins i) d).0 ≡ ok quiet
  unfolding perform ConnectionData.handle_begin_request
  begun_quiet i d missing = rw (missing, ConnectionData.handle_begin_request) refl

  pub begin-Serves :
      (i : ℕ) (p : Packet) (ps : List Packet) (d : ConnectionData) (calls : List AcceptorCall)
      (s : Connection)
      → IsBegin i p
      → not_closed s.state ≡ true
      → find i d.request_map ≡ none
      → Stage start d calls s
      → Serves start p ps (perform (begins i) d).1 calls s
  begin-Serves i p ps d calls s v live missing stage =
      let d' = (perform (begins i) d).1 in
      let run : perform (begins i) s.connection_data ≡ (ok quiet, d') =
        ap (perform (begins i)) stage.at ∙ cc (begun_quiet i d missing) in
      let t = record s { connection_data = d' } in
      let (returns, stays) =
        winds-Stage v.flags d' calls t live (begun_filled i d missing) (record {
          at = refl;
          called = stage.called;
          is_open = stage.is_open;
          socket = stage.socket;
          strand = stage.strand;
        }) in
      returned-Serves start p ps d' calls s (after_begin v.flags t).1
        (begin-runs i p d' s v run ∙ cc returns) stays
