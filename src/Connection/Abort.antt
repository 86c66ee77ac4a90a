-- ===== src/Connection/Abort.antt =====
-- Fastcgi/RecordSocket.h: the branch for FCGI_ABORT_REQUEST, over a connection.
use santiago_old.Prelude.{ℕ, ◌≡◌, ◌∙◌, List, [], ◌∷◌, ◌++◌, refl, none, false}
use santiago_old.OrderedMap.{nat_key, find, erase, find-erase}
use santiago_old.Protocol
use santiago_old.PacketSocket.{opened}
use santiago_old.PacketSocket.Frames.{packets_bytes, written_packet}
use santiago_old.PacketSocket.Wire.{IsReliable, wrote, packets_of, write_packet-wrote}
use santiago_old.PacketSocket.Writing.{pieces}
use santiago_old.ConnectionData.{Entry, handle_abort_request}
use santiago_old.ConnectionData.Addresses.{Holds}
use santiago_old.ConnectionData.Chunks.{==-self}
use santiago_old.RecordSocket.{handle_new_packet, on_abort_request, write_or_report}
use santiago_old.Connection.{Connection, with_packet_socket, on_data, callbacks}
use santiago_old.Connection.Commit.{IsAnswered, emptied-IsAnswered}

-- An FCGI_EndRequestBody with the application status 1 and FCGI_REQUEST_COMPLETE.
abbrev pub abort_body : List ℕ
abort_body = 0 ∷ 0 ∷ 0 ∷ 1 ∷ 0 ∷ 0 ∷ 0 ∷ 0 ∷ []

taken-IsAnswered :
    (i : ℕ) (e : Entry) (c : Connection)
    → Holds c.connection_data i e
    → IsAnswered i c.packet_socket.protocol_socket.sent (on_data (handle_abort_request i) c)
unfolding on_data handle_abort_request
taken-IsAnswered i e c held =
    let d = record c.connection_data { request_map = erase i c.connection_data.request_map } in
    let gone : find i d.request_map ≡ none =
      find-erase i i c.connection_data.request_map ∙ rw (==-self i) refl in
    rw (held, handle_abort_request) (emptied-IsAnswered i (record c { connection_data = d }) gone)

-- FCGI_ABORT_REQUEST for a request of the map, on an open socket that reports no error:
-- handleNewPacket returns, and the request is in the map no more. One packet was sent, with the id
-- of the request, the body of an FCGI_END_REQUEST with the status 1, and the header type 0, which
-- is not FCGI_END_REQUEST.
pub abort-IsAnswered :
    (i : ℕ) (e : Entry) (content : List ℕ) (c : Connection)
    → Holds c.connection_data i e
    → c.packet_socket.state ≡ opened
    → IsReliable c.packet_socket
    → IsAnswered i
        (c.packet_socket.protocol_socket.sent ++ packets_bytes (written_packet i 0 abort_body ∷ []))
        (handle_new_packet callbacks false i 2 content c)
unfolding handle_new_packet on_abort_request write_or_report
abort-IsAnswered i e content c held is_open reliable =
    let sent = write_packet-wrote i 0 abort_body c.packet_socket is_open reliable in
    let t =
      with_packet_socket c
        (wrote 1 (packets_bytes (written_packet i 0 abort_body ∷ [])) c.packet_socket) in
    unfold packets_of pieces Protocol.end_request_body in rw sent (taken-IsAnswered i e t held)
