-- ===== src/Connection/Values.antt =====
-- Fastcgi/RecordSocket.h: the branch for FCGI_GET_VALUES, over a connection.
use santiago_old.Prelude.{ℕ, ◌%◌, ◌^◌, ◌<◌, ◌≡◌, refl, false, List, [], length, arith}
use santiago_old.Exec.{Outcome, ok}
use santiago_old.Protocol
use santiago_old.Pairs.{ParamsMap, parse_pairs}
use santiago_old.Pairs.Bounds.{parse_pairs-total}
use santiago_old.Pairs.Sizes.{length-parse_pairs}
use santiago_old.PacketSocket.{opened}
use santiago_old.PacketSocket.Frames.{packets_bytes}
use santiago_old.PacketSocket.Writing.{pieces_of}
use santiago_old.PacketSocket.Wire.{IsReliable, wrote, packets_of, write_packet-wrote}
use santiago_old.RecordSocket.{handle_new_packet, on_get_values, write_or_report, write_values}
use santiago_old.RecordSocket.Values.{IsTold, write_values-IsTold, length-write_values}
use santiago_old.Connection.{Connection, with_packet_socket, callbacks}

-- A connection that has answered a query: it has sent a content under the id 0 and the type
-- FCGI_GET_VALUES_RESULT, which is 10, and nothing else is changed.
pub record Answers (content : List ℕ) (c : Connection) (r : Outcome (Unit {0}) × Connection)
    : Type 0 where
  pub query : ParamsMap
  pub asked : parse_pairs content [] ≡ ok query
  pub body : List ℕ
  pub result : r ≡ (
    ok tt,
    with_packet_socket c
        (wrote (length (pieces_of body)) (packets_bytes (packets_of 0 10 body)) c.packet_socket),
  )
  pub tells : IsTold query body

writes :
    (body : List ℕ) (c : Connection)
    → c.packet_socket.state ≡ opened
    → IsReliable c.packet_socket
    → length body < 2 ^ 32
    → write_or_report callbacks 0 Protocol.fcgi_get_values_result body c ≡ (
      ok tt,
      with_packet_socket c
          (wrote (length (pieces_of body)) (packets_bytes (packets_of 0 10 body)) c.packet_socket),
    )
unfolding write_or_report
writes body c is_open reliable short =
    let whole : length body % 2 ^ 32 ≡ length body = omega arith in
    rw (whole, write_packet-wrote 0 10 body c.packet_socket is_open reliable) refl

-- FCGI_GET_VALUES on an open socket that reports no error, for a content that fits a packet:
-- handleNewPacket returns, and sends one answer under the id 0 and the type 10,
-- FCGI_GET_VALUES_RESULT, and nothing else. A peer that parses it holds FCGI_MAX_CONNS with 100,
-- FCGI_MAX_REQS with 1000 and FCGI_MPXS_CONNS with 1, each if and only if the query has its name,
-- and no other name.
pub get_values-Answers :
    (i : ℕ) (content : List ℕ) (c : Connection)
    → length content < 2 ^ 16
    → c.packet_socket.state ≡ opened
    → IsReliable c.packet_socket
    → Answers content c (handle_new_packet callbacks false i 9 content c)
unfolding handle_new_packet on_get_values
get_values-Answers i content c fits is_open reliable =
    let (query, asked) = parse_pairs-total content [] in
    let body = write_values [] query in
    let short : length body < 2 ^ 32 =
      omega (arith, length-write_values [] query, length-parse_pairs content query asked) in
    record {
      query = query;
      asked = asked;
      body = body;
      result = rw asked (writes body c is_open reliable short);
      tells = write_values-IsTold query short;
    }
