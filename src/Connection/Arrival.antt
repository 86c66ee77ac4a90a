-- ===== src/Connection/Arrival.antt =====
-- Fastcgi/Connection.h: the packets of one request in a read, from handleRead to the acceptor.
use santiago_old.Prelude.{
  ℕ, ◌≡◌, ◌∙◌, refl, ap, ◌⊎◌, inl, inr, false, List, [], ◌∷◌, ◌++◌, arith, ◌==◌, if◌then◌else◌,
}
use santiago_old.Exec.{ok}
use santiago_old.OrderedMap.{nat_key}
use santiago_old.Protocol
use santiago_old.PacketSocket
use santiago_old.PacketSocket.{PacketSocket}
use santiago_old.PacketSocket.Read.{consume, packet_size}
use santiago_old.PacketSocket.Frames.{Packet, header_of}
use santiago_old.PacketSocket.Reading.{serve_packets}
use santiago_old.ConnectionData.{ConnectionData, quiet, request_ready}
use santiago_old.ConnectionData.Changes.{Op, stdin_chunk, params_chunk, perform}
use santiago_old.RecordSocket.{handle_new_packet}
use santiago_old.Connection.{
  Connection, callbacks, host, on_data, on_notice, handle_request_ready, new_request_call,
  AcceptorCall,
}

-- A chunk of the params or of the input of the request i.
pub record IsChunk (i : ℕ) (p : Packet) : Type 0 where
  pub own : p.request_id ≡ i
  pub stream : (p.type ≡ Protocol.fcgi_params) ⊎ (p.type ≡ Protocol.fcgi_stdin)

abbrev pub op_of : Packet → Op
op_of p =
    if p.type == Protocol.fcgi_params
    then params_chunk p.request_id p.content
    else stdin_chunk p.request_id p.content

chunk-runs :
    (i : ℕ) (p : Packet) (s : Connection)
    → IsChunk i p
    → handle_new_packet callbacks false p.request_id p.type p.content s
      ≡ on_data (perform (op_of p)) s
unfolding handle_new_packet perform
chunk-runs i p s v = elim v.stream [ inl e ↦ rw e refl | inr e ↦ rw e refl ]

quiet_runs :
    (op : Op) (d : ConnectionData) (s : Connection)
    → perform op s.connection_data ≡ (ok quiet, d)
    → on_data (perform op) s ≡ (ok tt, record s { connection_data = d })
unfolding on_data on_notice
quiet_runs op d s e = rw e refl

ready_runs :
    (op : Op) (i q : ℕ) (d : ConnectionData) (s : Connection)
    → perform op s.connection_data ≡ (ok (request_ready i q), d)
    → on_data (perform op) s
      ≡ (ok tt, record s { connection_data = d; calls = s.calls ++ (new_request_call i q ∷ []) })
unfolding on_data on_notice handle_request_ready
ready_runs op i q d s e = rw e refl

-- Everything is about a read that starts with this packet socket.
module _ (start : PacketSocket) where
  -- A connection that reads on, by its data and its calls. Its socket and its strand are those that
  -- the read started with.
  pub record Stage (d : ConnectionData) (calls : List AcceptorCall) (s : Connection) : Type 0 where
    pub socket : s.packet_socket.protocol_socket ≡ start.protocol_socket
    pub strand : s.packet_socket.connection_strand ≡ start.connection_strand
    pub at : s.connection_data ≡ d
    pub called : s.calls ≡ calls
    pub is_open : s.packet_socket.state ≡ PacketSocket.opened

  -- After a packet the others are served from here.
  pub record Serves (p : Packet) (ps : List Packet) (d : ConnectionData) (calls : List AcceptorCall)
      (s : Connection) : Type 0 where
    pub next : Connection
    pub served : serve_packets host (p ∷ ps) s ≡ serve_packets host ps next
    pub stage : Stage d calls next

  -- A packet whose callback returns with the socket open.
  pub returned-Serves :
      (p : Packet) (ps : List Packet) (d : ConnectionData) (calls : List AcceptorCall)
      (s t : Connection)
      → handle_new_packet callbacks false p.request_id p.type p.content s ≡ (ok tt, t)
      → Stage d calls t
      → Serves p ps d calls s
  unfolding serve_packets consume
  returned-Serves p ps d calls s t run v = record {
    next = consume host (packet_size (header_of p)) t;
    served = ground (arith, run, v.is_open);
    stage = record {
      at = v.at;
      called = v.called;
      is_open = v.is_open;
      socket = v.socket;
      strand = v.strand;
    };
  }

  -- A chunk that makes no callback, and one that makes the callback of a request.
  pub quiet-Serves :
      (i : ℕ) (p : Packet) (ps : List Packet) (d : ConnectionData) (calls : List AcceptorCall)
      (s : Connection)
      → IsChunk i p
      → (perform (op_of p) d).0 ≡ ok quiet
      → Stage d calls s
      → Serves p ps (perform (op_of p) d).1 calls s
  quiet-Serves i p ps d calls s v returns stage =
      let d' = (perform (op_of p) d).1 in
      let run : perform (op_of p) s.connection_data ≡ (ok quiet, d') =
        ap (perform (op_of p)) stage.at ∙ cc returns in
      returned-Serves p ps d' calls s (record s { connection_data = d' })
        (chunk-runs i p s v ∙ quiet_runs (op_of p) d' s run)
        (record {
          at = refl;
          called = stage.called;
          is_open = stage.is_open;
          socket = stage.socket;
          strand = stage.strand;
        })

  pub ready-Serves :
      (i q : ℕ) (p : Packet) (ps : List Packet) (d : ConnectionData) (calls : List AcceptorCall)
      (s : Connection)
      → IsChunk i p
      → (perform (op_of p) d).0 ≡ ok (request_ready i q)
      → Stage d calls s
      → Serves p ps (perform (op_of p) d).1 (calls ++ (new_request_call i q ∷ [])) s
  ready-Serves i q p ps d calls s v returns stage =
      let d' = (perform (op_of p) d).1 in
      let run : perform (op_of p) s.connection_data ≡ (ok (request_ready i q), d') =
        ap (perform (op_of p)) stage.at ∙ cc returns in
      returned-Serves p ps d' (calls ++ (new_request_call i q ∷ [])) s
        (record s { connection_data = d'; calls = s.calls ++ (new_request_call i q ∷ []) })
        (chunk-runs i p s v ∙ ready_runs (op_of p) i q d' s run)
        (record {
          at = refl;
          called = ap (λ cs. cs ++ (new_request_call i q ∷ [])) stage.called;
          is_open = stage.is_open;
          socket = stage.socket;
          strand = stage.strand;
        })
