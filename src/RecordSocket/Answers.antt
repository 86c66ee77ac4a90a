-- ===== src/RecordSocket/Answers.antt =====
-- Fastcgi/RecordSocket.h: sendReply on the wire.
use santiago_old.Prelude.{
  ℕ, ◌%◌, ◌^◌, ◌<◌, ◌≡◌, ◌∙◌, refl, sym, subst, Bool, false, Bool-cases, inl, inr, List, [], ◌∷◌,
  ◌++◌, append_assoc, append-nil, arith, length, ◌==◌, if◌then◌else◌, All,
}
use santiago_old.Exec.{Exec, Outcome, ok, pure}
use santiago_old.Protocol
use santiago_old.PacketSocket.{opened}
use santiago_old.PacketSocket.Frames.{Packet, IsPacket, packets_bytes}
use santiago_old.PacketSocket.Wire.{
  IsReliable, wrote, packets_of, packets_of-IsPacket, write_packet-wrote,
}
use santiago_old.PacketSocket.Writing.{pieces_of}
use santiago_old.RequestData.{RequestData}
use santiago_old.RecordSocket.{Replying, send_then, send_end, send_err, send_reply}

-- The packets of one buffer; an empty one takes none, since an empty packet ends a stream.
unfoldable pub stream_packets : ℕ → ℕ → List ℕ → List Packet
stream_packets request_id type buffer =
    if length buffer == 0 then [] else packets_of request_id type buffer

unfoldable pub end_packets : ℕ → ℕ → List Packet
end_packets request_id app_status =
    packets_of request_id Protocol.fcgi_stdout []
    ++ (packets_of request_id Protocol.fcgi_stderr []
        ++ packets_of request_id Protocol.fcgi_end_request
            (Protocol.end_request_body app_status Protocol.fcgi_request_complete))

-- The packets of a reply: the output, the errors, the two ends of the streams, and the status.
unfoldable pub reply_packets : ℕ → RequestData → List Packet
reply_packets request_id d =
    stream_packets request_id Protocol.fcgi_stdout d.out_buffer
    ++ (stream_packets request_id Protocol.fcgi_stderr d.err_buffer
        ++ end_packets request_id d.app_status)

-- A run that sends these packets, without an error.
pub record Sends (s : Replying) (packets : List Packet) (r : Outcome Bool × Replying) : Type 0 where
  pub after : Replying
  pub returns : r ≡ (ok false, after)
  pub sends :
      after.packet_socket.protocol_socket.sent
      ≡ s.packet_socket.protocol_socket.sent ++ packets_bytes packets

pub packets_bytes-append :
    (xs ys : List Packet) → packets_bytes (xs ++ ys) ≡ packets_bytes xs ++ packets_bytes ys
unfolding packets_bytes
packets_bytes-append [] ys = refl
packets_bytes-append (x ∷ xs) ys =
    rw (packets_bytes-append xs ys) (sym (append_assoc _ (packets_bytes xs) (packets_bytes ys)))

abbrev written : ℕ → ℕ → List ℕ → Replying → Replying
written request_id type content s = record s {
  packet_socket =
      wrote (length (pieces_of content)) (packets_bytes (packets_of request_id type content))
        s.packet_socket;
}

module _ (request_id type : ℕ) (content : List ℕ) (rest : Exec Replying Bool) (s : Replying) where
  send_then-written :
      s.packet_socket.state ≡ opened
      → IsReliable s.packet_socket
      → length content < 2 ^ 32
      → send_then request_id type content rest s ≡ rest (written request_id type content s)
  unfolding send_then
  send_then-written h reliable short =
      let whole : length content % 2 ^ 32 ≡ length content = omega arith in
      rw (whole, write_packet-wrote request_id type content s.packet_socket h reliable)

  send_then-Sends :
      (packets : List Packet)
      → s.packet_socket.state ≡ opened
      → IsReliable s.packet_socket
      → length content < 2 ^ 32
      → Sends (written request_id type content s) packets (rest (written request_id type content s))
      → Sends s
          (packets_of request_id type content ++ packets)
          (send_then request_id type content rest s)
  send_then-Sends packets h reliable short v = record {
    after = v.after;
    returns = send_then-written h reliable short ∙ v.returns;
    sends =
        v.sends
        ∙ rw (packets_bytes-append (packets_of request_id type content) packets) (
            append_assoc s.packet_socket.protocol_socket.sent
              (packets_bytes (packets_of request_id type content)) (packets_bytes packets));
  }

nothing-Sends : (s : Replying) → Sends s [] (ok false, s)
unfolding packets_bytes
nothing-Sends s = record {
  after = s;
  returns = refl;
  sends = sym (append-nil s.packet_socket.protocol_socket.sent);
}

-- Emptying a buffer sends nothing.
emptied-Sends :
    (s : Replying) (packets : List Packet) (d : RequestData) (r : Outcome Bool × Replying)
    → Sends (record s { request = d }) packets r
    → Sends s packets r
emptied-Sends s packets d r v = record { after = v.after; returns = v.returns; sends = v.sends }

pub All-append :
    (P : Packet → Type 0) → (xs ys : List Packet) → All P xs → All P ys → All P (xs ++ ys)
All-append P [] ys h k = k
All-append P (x ∷ xs) ys (h, hs) k = (h, All-append P xs ys hs k)

stream_packets-IsPacket :
    (request_id type : ℕ) (buffer : List ℕ) → All IsPacket (stream_packets request_id type buffer)
unfolding stream_packets
stream_packets-IsPacket request_id type buffer = elim (Bool-cases (length buffer == 0)) [
  | inl e ↦ rw e tt
  | inr e ↦ rw e (packets_of-IsPacket request_id type buffer)
]

pub reply_packets-IsPacket :
    (request_id : ℕ) (d : RequestData) → All IsPacket (reply_packets request_id d)
unfolding reply_packets end_packets
reply_packets-IsPacket request_id d = All-append IsPacket _ _ (stream_packets-IsPacket _ _ _) (
    All-append IsPacket _ _ (stream_packets-IsPacket _ _ _) (
      All-append IsPacket _ _ (packets_of-IsPacket _ _ _)
        (All-append IsPacket _ _ (packets_of-IsPacket _ _ _) (packets_of-IsPacket _ _ _))))

send_end-Sends :
    (request_id : ℕ) (s : Replying)
    → s.packet_socket.state ≡ opened
    → IsReliable s.packet_socket
    → Sends s (end_packets request_id s.request.app_status) (send_end request_id s)
unfolding send_end end_packets
send_end-Sends request_id s h reliable =
    let body = Protocol.end_request_body s.request.app_status Protocol.fcgi_request_complete in
    let s1 = written request_id Protocol.fcgi_stdout [] s in
    let s2 = written request_id Protocol.fcgi_stderr [] s1 in
    send_then-Sends request_id Protocol.fcgi_stdout [] _ s _ h reliable (omega arith) (
      send_then-Sends request_id Protocol.fcgi_stderr [] _ s1 _ h reliable (omega arith) (
        subst
          (λ packets.
            Sends s2 packets (send_then request_id Protocol.fcgi_end_request body (pure false) s2))
          (append-nil (packets_of request_id Protocol.fcgi_end_request body))
          (send_then-Sends request_id Protocol.fcgi_end_request body (pure false) s2 [] h reliable
            (unfold Protocol.end_request_body in omega arith)
            (nothing-Sends (written request_id Protocol.fcgi_end_request body s2)))))

send_err-Sends :
    (request_id : ℕ) (s : Replying)
    → s.packet_socket.state ≡ opened
    → IsReliable s.packet_socket
    → length s.request.err_buffer < 2 ^ 32
    → Sends s
        (stream_packets request_id Protocol.fcgi_stderr s.request.err_buffer
          ++ end_packets request_id s.request.app_status)
        (send_err request_id s)
unfolding send_err stream_packets
send_err-Sends request_id s h reliable short =
    elim (Bool-cases (length s.request.err_buffer == 0)) [
      | inl e ↦ rw e (send_end-Sends request_id s h reliable)
      | inr e ↦ rw e (
          send_then-Sends request_id Protocol.fcgi_stderr s.request.err_buffer _ s _ h reliable
            short
            (emptied-Sends _ _ (record s.request { err_buffer = [] }) _
              (send_end-Sends request_id _ h reliable)))
    ]

-- On an open socket that reports no error sendReply sends, for every reply below 4 GB, exactly the
-- packets of the output, of the error text, the two empty packets that end the streams and the
-- FCGI_END_REQUEST with the application status, in this order; and each
-- has an id and a content length that fit a header.
pub send_reply-Sends :
    (request_id : ℕ) (s : Replying)
    → s.packet_socket.state ≡ opened
    → IsReliable s.packet_socket
    → length s.request.out_buffer < 2 ^ 32
    → length s.request.err_buffer < 2 ^ 32
    → Sends s (reply_packets request_id s.request) (send_reply request_id s)
      × All IsPacket (reply_packets request_id s.request)
unfolding send_reply stream_packets reply_packets
send_reply-Sends request_id s h reliable short_out short_err = (
  elim (Bool-cases (length s.request.out_buffer == 0)) [
    | inl e ↦ rw e (send_err-Sends request_id s h reliable short_err)
    | inr e ↦ rw e (
        send_then-Sends request_id Protocol.fcgi_stdout s.request.out_buffer _ s _ h reliable
          short_out
          (emptied-Sends _ _ (record s.request { out_buffer = [] }) _
            (send_err-Sends request_id _ h reliable short_err)))
  ],
  unfold reply_packets in reply_packets-IsPacket request_id s.request,
)
