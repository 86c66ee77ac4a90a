-- ===== src/RecordSocket/Received.antt =====
-- Fastcgi/RecordSocket.h: sendReply, and a peer that reads what it sends.
use santiago_old.Prelude.{
  ℕ, ◌%◌, ◌^◌, ◌<◌, ◌≡◌, ◌∙◌, refl, ap, false, List, [], ◌∷◌, ◌++◌, append-nil, All, map, some,
  length, drop, drop-append_length, map-append, Bool-cases, inl, inr, ◌==◌,
}
use santiago_old.Exec.{ok}
use santiago_old.Protocol
use santiago_old.PacketSocket.{opened}
use santiago_old.PacketSocket.Read.{handle_read}
use santiago_old.PacketSocket.Frames.{Packet, packets_bytes, written_packet}
use santiago_old.PacketSocket.Writing.{pieces_of}
use santiago_old.PacketSocket.Wire.{IsReliable, packets_of}
use santiago_old.PacketSocket.Peer.{Frame, Peer, frame_of, recorder, handle_read-Takes}
use santiago_old.RequestData.{RequestData}
use santiago_old.RecordSocket.{Replying, send_reply}
use santiago_old.RecordSocket.Answers.{
  stream_packets, end_packets, reply_packets, send_reply-Sends, All-append,
}
use santiago_old.RecordSocket.Decoding.{
  stream_of, status_of, prepend, ending, own_stream, other_stream, stream_status, ending_out,
  ending_err, ending_status,
}

-- The frames of a reply decode to it.
pub record IsReply (i : ℕ) (d : RequestData) (frames : List Frame) : Type 0 where
  pub output : stream_of Protocol.fcgi_stdout frames ≡ some d.out_buffer
  pub errors : stream_of Protocol.fcgi_stderr frames ≡ some d.err_buffer
  pub status : status_of frames ≡ some (d.app_status % 2 ^ 32)
  pub own : All (λ f. f.request_id ≡ i % 2 ^ 16) frames

abbrev OwnPacket : ℕ → Packet → Type 0
OwnPacket i p = p.request_id ≡ i % 2 ^ 16

module _ (i : ℕ) where
  written_own : (t : ℕ) (ps : List (List ℕ)) → All (OwnPacket i) (map (written_packet i t) ps)
  unfolding written_packet
  written_own t [] = tt
  written_own t (p ∷ ps) = (refl, written_own t ps)

  packets_own : (t : ℕ) (b : List ℕ) → All (OwnPacket i) (packets_of i t b)
  unfolding packets_of
  packets_own t b = written_own t (pieces_of b)

  stream_own : (t : ℕ) (b : List ℕ) → All (OwnPacket i) (stream_packets i t b)
  unfolding stream_packets
  stream_own t b = elim (Bool-cases (length b == 0)) [
    | inl e ↦ rw e tt
    | inr e ↦ rw e (packets_own t b)
  ]

  ending_own : (status : ℕ) → All (OwnPacket i) (end_packets i status)
  unfolding end_packets
  ending_own status =
      All-append (OwnPacket i) _ _ (packets_own _ _)
        (All-append (OwnPacket i) _ _ (packets_own _ _) (packets_own _ _))

  frames_own :
      (ps : List Packet)
      → All (OwnPacket i) ps
      → All (λ (f : Frame). f.request_id ≡ i % 2 ^ 16) (map frame_of ps)
  frames_own [] v = tt
  frames_own (p ∷ ps) (v, vs) = (v, frames_own ps vs)

module _ (i : ℕ) (d : RequestData) where
  abbrev output_frames : List Frame
  output_frames = map frame_of (stream_packets i Protocol.fcgi_stdout d.out_buffer)

  abbrev error_frames : List Frame
  error_frames = map frame_of (stream_packets i Protocol.fcgi_stderr d.err_buffer)

  reply_frames :
      map frame_of (reply_packets i d) ≡ output_frames ++ (error_frames ++ ending i d.app_status)
  unfolding reply_packets
  reply_frames =
      map-append frame_of (stream_packets i Protocol.fcgi_stdout d.out_buffer) _
      ∙ ap (λ x. output_frames ++ x)
          (map-append frame_of (stream_packets i Protocol.fcgi_stderr d.err_buffer) _)

  reply_own : All (OwnPacket i) (reply_packets i d)
  unfolding reply_packets
  reply_own =
      All-append (OwnPacket i) _ _ (stream_own i _ _)
        (All-append (OwnPacket i) _ _ (stream_own i _ _) (ending_own i d.app_status))

  pub reply_packets-IsReply : IsReply i d (map frame_of (reply_packets i d))
  reply_packets-IsReply =
      let rest = error_frames ++ ending i d.app_status in
      record {
        output =
            ap (stream_of Protocol.fcgi_stdout) reply_frames
            ∙ own_stream i Protocol.fcgi_stdout d.out_buffer rest
            ∙ ap (prepend d.out_buffer) (
                other_stream i Protocol.fcgi_stderr Protocol.fcgi_stdout d.err_buffer _ refl
                ∙ ending_out i d.app_status)
            ∙ ap some (append-nil d.out_buffer);
        errors =
            ap (stream_of Protocol.fcgi_stderr) reply_frames
            ∙ other_stream i Protocol.fcgi_stdout Protocol.fcgi_stderr d.out_buffer rest refl
            ∙ own_stream i Protocol.fcgi_stderr d.err_buffer (ending i d.app_status)
            ∙ ap (prepend d.err_buffer) (ending_err i d.app_status)
            ∙ ap some (append-nil d.err_buffer);
        status =
            ap status_of reply_frames
            ∙ stream_status i Protocol.fcgi_stdout d.out_buffer rest refl
            ∙ stream_status i Protocol.fcgi_stderr d.err_buffer (ending i d.app_status) refl
            ∙ ending_status i d.app_status;
        own = frames_own i (reply_packets i d) reply_own;
      }

-- What one run of sendReply has put on the wire.
abbrev pub newly_sent : Replying → Replying → List ℕ
newly_sent s t =
    drop (length s.packet_socket.protocol_socket.sent) t.packet_socket.protocol_socket.sent

-- A peer reads with a packet socket of its own, from an empty buffer, what sendReply sends on an open
-- socket that reports no error, for buffers below 4 GB. Then its handleRead returns, and the packets
-- that it is handed are all of the request, with its id in 16 bits; their output stream and their
-- error stream end, and are the two buffers; and the status at the end is the application status.
pub send_reply_read_back :
    (i : ℕ) (s : Replying) (peer : Peer)
    → s.packet_socket.state ≡ opened
    → IsReliable s.packet_socket
    → length s.request.out_buffer < 2 ^ 32
    → length s.request.err_buffer < 2 ^ 32
    → peer.socket.state ≡ opened
    → peer.socket.input_buffer ≡ []
    → peer.received ≡ []
    → let r = handle_read recorder false (newly_sent s (send_reply i s).1) peer in
      (r.0 ≡ ok tt) × IsReply i s.request r.1.received
send_reply_read_back i s peer is_open reliable short_out short_err peer_open empty fresh =
    let (v, fits) = send_reply-Sends i s is_open reliable short_out short_err in
    let bytes = packets_bytes (reply_packets i s.request) in
    let wire : newly_sent s (send_reply i s).1 ≡ bytes =
      ap (λ x. newly_sent s x.1) v.returns
      ∙ ap (drop (length s.packet_socket.protocol_socket.sent)) v.sends
      ∙ drop-append_length s.packet_socket.protocol_socket.sent bytes in
    let read = handle_read-Takes (reply_packets i s.request) peer fits peer_open empty in
    let frames = read.takes ∙ rw fresh refl in
    rw wire (read.returns, rw frames (reply_packets-IsReply i s.request))
