-- ===== src/Connection/Service.antt =====
-- Fastcgi/Connection.h: a request from its bytes to the bytes of its reply.
use santiago_old.Prelude.{
  ℕ, ◌<◌, ◌^◌, ◌≡◌, ◌∙◌, refl, sym, ap, subst, false, true, none, List, [], ◌++◌, All, length, drop,
  drop-append_length,
}
use santiago_old.Exec.{Outcome, ok}
use santiago_old.OrderedMap.{nat_key, find}
use santiago_old.Pairs.{ParamsMap, parse_pairs}
use santiago_old.RequestData.{RequestData, new_request_data}
use santiago_old.PacketSocket
use santiago_old.PacketSocket.Read.{handle_read}
use santiago_old.PacketSocket.Frames.{IsPacket, packets_bytes}
use santiago_old.PacketSocket.Reading.{IsPartial}
use santiago_old.PacketSocket.Wire.{IsReliable}
use santiago_old.PacketSocket.Peer.{Peer, recorder, handle_read-Takes}
use santiago_old.ConnectionData.{update, has_flag, in_completed}
use santiago_old.ConnectionData.Changes.{Op}
use santiago_old.ConnectionData.Addresses.{IsAddressed}
use santiago_old.ConnectionData.Chunks.{params_of, stdin_of, fed, ==-self}
use santiago_old.ConnectionData.Delivery.{ended_entry}
use santiago_old.RecordSocket.Answers.{reply_packets, reply_packets-IsPacket}
use santiago_old.RecordSocket.Received.{IsReply, reply_packets-IsReply}
use santiago_old.Connection.{
  Connection, not_closed, host, commit_reply, commit_reply_impl, run_oldest, step, run_task,
}
use santiago_old.Connection.Commit.{IsAnswered, commit-IsAnswered}
use santiago_old.Connection.Feeds.{ops_of}
use santiago_old.Connection.Arrived.{RequestPackets, IsRequest, sent, request-Arrives}

-- The object of a request as the user gets it.
abbrev pub given : Connection → ℕ → List Op → ParamsMap → RequestData
given c i ops params =
    record (fed (new_request_data (c.connection_data.objects c.connection_data.next_object))
      (params_of i ops) (stdin_of i ops)) { params_map = params }

-- The user changes the object p and commits the request i.
abbrev pub answered : ℕ → ℕ → (RequestData → RequestData) → Connection → Connection
answered i p answer c = commit_reply i p (record c {
  connection_data = record c.connection_data {
    objects = update c.connection_data.objects p (answer (c.connection_data.objects p));
  };
})

-- The turn of the strand that the reply waits for.
reply_turn :
    (i p : ℕ) (answer : RequestData → RequestData) (c : Connection)
    → c.packet_socket.connection_strand ≡ []
    → step run_task (answered i p answer c)
      ≡ commit_reply_impl i p (record c {
        packet_socket = record c.packet_socket { connection_strand = [] };
        connection_data = record c.connection_data {
          objects = update c.connection_data.objects p (answer (c.connection_data.objects p));
        };
      })
unfolding step commit_reply run_oldest
reply_turn i p answer c idle = rw idle refl

ended_flag : (p : ℕ) → has_flag (ended_entry p).request_state in_completed ≡ true
unfolding has_flag
ended_flag p = refl

-- A connection that has sent a reply that a peer can read.
pub record IsServed (i : ℕ) (d : RequestData) (c : Connection) (peer : Peer)
    (r : Outcome (Unit {0}) × Connection) : Type 0 where
  pub returns : r.0 ≡ ok tt
  pub gone : find i r.1.connection_data.request_map ≡ none
  pub read :
      IsReply i d
        (handle_read recorder false
          (drop
            (length c.packet_socket.protocol_socket.sent)
            r.1.packet_socket.protocol_socket.sent)
          peer).1.received

module _ (i : ℕ) (answer : RequestData → RequestData) (c : Connection) (peer : Peer)
    (peer_open : peer.socket.state ≡ PacketSocket.opened) (empty : peer.socket.input_buffer ≡ [])
    (fresh : peer.received ≡ []) where
  read_back :
      (d : RequestData) (r : Outcome (Unit {0}) × Connection)
      → IsAnswered i (c.packet_socket.protocol_socket.sent ++ packets_bytes (reply_packets i d)) r
      → IsServed i d c peer r
  read_back d r v =
      let bytes = packets_bytes (reply_packets i d) in
      let wire : drop (length c.packet_socket.protocol_socket.sent)
            r.1.packet_socket.protocol_socket.sent
          ≡ bytes =
        ap (drop (length c.packet_socket.protocol_socket.sent)) v.sends
        ∙ drop-append_length c.packet_socket.protocol_socket.sent bytes in
      let taken =
        handle_read-Takes (reply_packets i d) peer (reply_packets-IsPacket i d) peer_open empty in
      let frames = taken.takes ∙ rw fresh refl in
      record {
        returns = v.returns;
        gone = v.gone;
        read = rw wire (rw frames (reply_packets-IsReply i d));
      }

-- A request that is read, given to the user, and answered.
pub record Attends (i : ℕ) (ops : List Op) (answer : RequestData → RequestData) (c : Connection)
    (peer : Peer) (after : Outcome (Unit {0}) × Connection) : Type 0 where
  pub returns : after.0 ≡ ok tt
  pub params : ParamsMap
  pub parses : parse_pairs (params_of i ops) [] ≡ ok params
  pub object : after.1.connection_data.objects c.connection_data.next_object ≡ given c i ops params
  pub served :
      IsServed i
        (answer (given c i ops params))
        c
        peer
        (step run_task (answered i c.connection_data.next_object answer after.1))

-- A read on an open connection whose socket reports no error and whose strand is idle completes the
-- packets of a request for a responder under an id that is not in use: its begin, chunks of params
-- and of input with content in any order, and the empty chunks that end both. Then handleRead
-- returns, and the object of the request has the params that the joined params chunks parse to, and
-- the joined input. However the user then changes the object, with an output and an error text
-- below 4 GB, and commits the request: the next turn of the strand returns, the request is gone,
-- and a peer that reads with a packet socket of its own what was sent gets that output, that error
-- text and that status.
pub request_served :
    (i : ℕ) (r : RequestPackets) (rest received : List ℕ) (c : Connection)
    (answer : RequestData → RequestData) (peer : Peer)
    → IsRequest i r
    → All IsPacket (sent r)
    → IsPartial rest
    → c.packet_socket.state ≡ PacketSocket.opened
    → IsReliable c.packet_socket
    → c.packet_socket.connection_strand ≡ []
    → c.packet_socket.input_buffer ++ received ≡ packets_bytes (sent r) ++ rest
    → not_closed c.state ≡ true
    → IsAddressed c.connection_data
    → find i c.connection_data.request_map ≡ none
    → ((d : RequestData) → length (answer d).out_buffer < 2 ^ 32)
    → ((d : RequestData) → length (answer d).err_buffer < 2 ^ 32)
    → peer.socket.state ≡ PacketSocket.opened
    → peer.socket.input_buffer ≡ []
    → peer.received ≡ []
    → Attends i (ops_of r.chunks) answer c peer (handle_read host false received c)
request_served i r rest received c answer peer v fits partial is_open reliable idle bytes live
      addressed missing short_out short_err peer_open empty fresh =
    let a =
      request-Arrives i r rest received c v fits partial is_open bytes live addressed missing in
    let p = c.connection_data.next_object in
    let t = (handle_read host false received c).1 in
    let d = answer (t.connection_data.objects p) in
    let u = record t {
      packet_socket = record t.packet_socket { connection_strand = [] };
      connection_data = record t.connection_data { objects = update t.connection_data.objects p d };
    } in
    let written : u.connection_data.objects p ≡ d = rw (==-self p) refl in
    let done : IsAnswered i
        (u.packet_socket.protocol_socket.sent
          ++ packets_bytes (reply_packets i (u.connection_data.objects p)))
        (commit_reply_impl i p u) =
      commit-IsAnswered i (ended_entry p) u a.held (ended_flag p) a.is_open
        (λ k. ap (λ f. f k) a.faults ∙ reliable k) (rw written (short_out _))
        (rw written (short_err _)) in
    let wire : u.packet_socket.protocol_socket.sent
          ++ packets_bytes (reply_packets i (u.connection_data.objects p))
        ≡ c.packet_socket.protocol_socket.sent ++ packets_bytes (reply_packets i d) =
      ap (λ x. x ++ packets_bytes (reply_packets i (u.connection_data.objects p))) a.sent
      ∙ ap (λ x. c.packet_socket.protocol_socket.sent ++ packets_bytes (reply_packets i x))
          written in
    record {
      returns = a.returns;
      params = a.params;
      parses = a.parses;
      object = a.object;
      served =
          subst (λ x. IsServed i (answer x) c peer (step run_task (answered i p answer t))) a.object
            (subst (IsServed i d c peer) (sym (reply_turn i p answer t (a.strand ∙ idle))) (
              read_back i answer c peer peer_open empty fresh d (commit_reply_impl i p u)
                (subst (λ x. IsAnswered i x (commit_reply_impl i p u)) wire done)));
    }
