-- ===== src/Connection/Arrived.antt =====
-- Fastcgi/Connection.h: the packets of one request, from handleRead to the acceptor.
use santiago_old.Prelude.{
  ℕ, ◌≡◌, ◌∙◌, refl, ap, subst, inl, inr, false, true, none, List, [], ◌∷◌, ◌++◌, All,
}
use santiago_old.Exec.{Outcome, ok}
use santiago_old.OrderedMap.{nat_key, find}
use santiago_old.Protocol
use santiago_old.Pairs.{ParamsMap, parse_pairs}
use santiago_old.RequestData.{new_request_data}
use santiago_old.PacketSocket
use santiago_old.PacketSocket.Read.{after_read, handle_read}
use santiago_old.PacketSocket.Frames.{Packet, IsPacket, packets_bytes}
use santiago_old.PacketSocket.Reading.{IsPartial, serve_packets, handle_read-serve_packets}
use santiago_old.ConnectionData.{ConnectionData, Notice, request_ready}
use santiago_old.ConnectionData.Changes.{
  Op, begins, stdin_chunk, params_chunk, perform, perform-Change, notice_of,
}
use santiago_old.ConnectionData.Addresses.{Holds, IsAddressed, Change-IsAddressed}
use santiago_old.ConnectionData.Chunks.{params_of, stdin_of, fed}
use santiago_old.ConnectionData.Delivery.{
  ended_entry, new_entry, begun_map, open_request, read_params, params_end_quiet, opened-Delivers,
}
use santiago_old.Connection.Arrival.{Stage, op_of, quiet-Serves, ready-Serves}
use santiago_old.Connection.Begins.{IsBegin, begin-Serves}
use santiago_old.Connection.Feeds.{IsFeed, ops_of, ops_of-Feeds, chunks-Feeding}
use santiago_old.Connection.Sockets.{connection_host}
use santiago_old.Connection.{Connection, not_closed, host, new_request_call}

-- The packets that a web server sends for a request.
pub record RequestPackets : Type 0 where
  pub begin : Packet
  pub chunks : List Packet
  pub params_end : Packet
  pub input_end : Packet

abbrev pub sent : RequestPackets → List Packet
sent r = r.begin ∷ (r.chunks ++ (r.params_end ∷ r.input_end ∷ []))

pub record IsEnd (i type : ℕ) (p : Packet) : Type 0 where
  pub own : p.request_id ≡ i
  pub stream : p.type ≡ type
  pub empty : p.content ≡ []

-- A request of a responder: chunks with content in any order, and both streams ended.
pub record IsRequest (i : ℕ) (r : RequestPackets) : Type 0 where
  pub begins_it : IsBegin i r.begin
  pub feeds : All (IsFeed i) r.chunks
  pub ends_params : IsEnd i Protocol.fcgi_params r.params_end
  pub ends_input : IsEnd i Protocol.fcgi_stdin r.input_end

-- A connection that returns from its read and has handed a request over.
pub record Arrives (i : ℕ) (ops : List Op) (c : Connection)
    (after : Outcome (Unit {0}) × Connection) : Type 0 where
  pub returns : after.0 ≡ ok tt
  pub asked : after.1.calls ≡ c.calls ++ (new_request_call i c.connection_data.next_object ∷ [])
  pub is_open : after.1.packet_socket.state ≡ PacketSocket.opened
  pub strand : after.1.packet_socket.connection_strand ≡ c.packet_socket.connection_strand
  pub sent : after.1.packet_socket.protocol_socket.sent ≡ c.packet_socket.protocol_socket.sent
  pub faults :
      after.1.packet_socket.protocol_socket.write_fails
      ≡ c.packet_socket.protocol_socket.write_fails
  pub held : Holds after.1.connection_data i (ended_entry c.connection_data.next_object)
  pub params : ParamsMap
  pub parses : parse_pairs (params_of i ops) [] ≡ ok params
  pub object :
      after.1.connection_data.objects c.connection_data.next_object
      ≡ record (fed
          (new_request_data (c.connection_data.objects c.connection_data.next_object))
          (params_of i ops)
          (stdin_of i ops)) { params_map = params }

ready_ok :
    (r : Outcome Notice) (i q : ℕ) → notice_of r ≡ request_ready i q → r ≡ ok (request_ready i q)
ready_ok (ok n) i q e = ap ok e
ready_ok (santiago_old.Exec.thrown x) i q e = cc
ready_ok (santiago_old.Exec.halted h) i q e = cc

params_end-op : (i : ℕ) (p : Packet) → IsEnd i Protocol.fcgi_params p → op_of p ≡ params_chunk i []
params_end-op i p v = rw (v.stream, v.own, v.empty) refl

input_end-op : (i : ℕ) (p : Packet) → IsEnd i Protocol.fcgi_stdin p → op_of p ≡ stdin_chunk i []
input_end-op i p v = rw (v.stream, v.own, v.empty) refl

module _ (i : ℕ) (r : RequestPackets) (c s : Connection) (v : IsRequest i r)
    (live : not_closed s.state ≡ true) (addressed : IsAddressed c.connection_data)
    (missing : find i c.connection_data.request_map ≡ none)
    (stage : Stage s.packet_socket c.connection_data c.calls s) where
  abbrev ended : ConnectionData
  ended = (perform (stdin_chunk i []) (read_params i (ops_of r.chunks) c.connection_data)).1

  -- The callbacks of the packets, one after the other.
  served_through :
      (t : Connection) × (serve_packets host (sent r) s ≡ (ok tt, t))
      × Stage s.packet_socket ended
          (c.calls ++ (new_request_call i c.connection_data.next_object ∷ []))
          t
  served_through =
      let d = c.connection_data in
      let ops = ops_of r.chunks in
      let ends = r.params_end ∷ r.input_end ∷ [] in
      let begun =
        begin-Serves s.packet_socket i r.begin (r.chunks ++ ends) d c.calls s v.begins_it live
          missing stage in
      let chunks =
        chunks-Feeding s.packet_socket i r.chunks ends (perform (begins i) d).1 (new_entry i d)
          c.calls begun.next v.feeds (Change-IsAddressed (perform-Change (begins i) d) addressed)
          (begun_map i d missing) refl begun.stage in
      let feeds = ops_of-Feeds i r.chunks v.feeds in
      let params_op = params_end-op i r.params_end v.ends_params in
      let input_op = input_end-op i r.input_end v.ends_input in
      let params =
        quiet-Serves s.packet_socket i r.params_end (r.input_end ∷ []) (open_request i ops d)
          c.calls chunks.next
          (record { own = v.ends_params.own; stream = inl v.ends_params.stream })
          (rw params_op (params_end_quiet i ops d addressed missing feeds)) chunks.stage in
      let delivered = opened-Delivers i ops d addressed missing feeds in
      let input =
        ready-Serves s.packet_socket i d.next_object r.input_end [] (read_params i ops d) c.calls
          params.next (record { own = v.ends_input.own; stream = inr v.ends_input.stream })
          (rw input_op (ready_ok _ i d.next_object delivered.calls))
          (subst
            (λ op. Stage s.packet_socket (perform op (open_request i ops d)).1 c.calls params.next)
            params_op params.stage) in
      (
        input.next,
        begun.served
            ∙ chunks.served
            ∙ params.served
            ∙ input.served
            ∙ (unfold serve_packets in refl),
        subst
            (λ op.
              Stage s.packet_socket (perform op (read_params i ops d)).1
                (c.calls ++ (new_request_call i d.next_object ∷ [])) input.next)
            input_op input.stage,
      )

-- A read on an open connection completes in the buffer the packets of a request for a responder
-- under an id that is not in use: its begin, chunks of params and of input with content in any
-- order, and the empty chunks that end both, up to the start of another packet. Then handleRead
-- returns and has written nothing, the socket is open, and one more callback was made, the ready
-- callback of this request. The request is in the map with both streams at their end, and its
-- object has the params that the joined params chunks parse to, and the joined input chunks.
pub request-Arrives :
    (i : ℕ) (r : RequestPackets) (rest received : List ℕ) (c : Connection)
    → IsRequest i r
    → All IsPacket (sent r)
    → IsPartial rest
    → c.packet_socket.state ≡ PacketSocket.opened
    → c.packet_socket.input_buffer ++ received ≡ packets_bytes (sent r) ++ rest
    → not_closed c.state ≡ true
    → IsAddressed c.connection_data
    → find i c.connection_data.request_map ≡ none
    → Arrives i (ops_of r.chunks) c (handle_read host false received c)
unfolding after_read
request-Arrives i r rest received c v fits partial is_open bytes live addressed missing =
    let d = c.connection_data in
    let ops = ops_of r.chunks in
    let run =
      handle_read-serve_packets host connection_host (sent r) rest received c fits partial is_open
        bytes in
    let (t, served, stage) =
      served_through i r c (after_read host received c) v live addressed missing
        (record { at = refl; called = refl; is_open = is_open; socket = refl; strand = refl }) in
    let delivered = opened-Delivers i ops d addressed missing (ops_of-Feeds i r.chunks v.feeds) in
    let all = run ∙ served in
    record {
      returns = ap (λ x. x.0) all;
      asked = ap (λ x. x.1.calls) all ∙ stage.called;
      is_open = ap (λ x. x.1.packet_socket.state) all ∙ stage.is_open;
      strand = ap (λ x. x.1.packet_socket.connection_strand) all ∙ stage.strand;
      sent = ap (λ x. x.1.packet_socket.protocol_socket.sent) all ∙ ap (λ x. x.sent) stage.socket;
      faults =
          ap (λ x. x.1.packet_socket.protocol_socket.write_fails) all
          ∙ ap (λ x. x.write_fails) stage.socket;
      held =
          ap (λ x. find i x.1.connection_data.request_map) all
          ∙ ap (λ x. find i x.request_map) stage.at
          ∙ delivered.held;
      params = delivered.params;
      parses = delivered.parses;
      object =
          ap (λ x. x.1.connection_data.objects d.next_object) all
          ∙ ap (λ x. x.objects d.next_object) stage.at
          ∙ delivered.object;
    }
