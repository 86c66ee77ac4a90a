-- ===== src/Tests/Packets.antt =====
-- Pairs and packets.
use santiago_old.Prelude.{
  ℕ, ◌%◌, ◌^◌, ◌≡◌, refl, inl, false, none, List, [], ◌∷◌, ◌++◌, arith, length, All, ◌<◌,
}
use santiago_old.Exec.{ok}
use santiago_old.OrderedMap.{find}
use santiago_old.Text.{bytes, text_key}
use santiago_old.Protocol.{header_bytes}
use santiago_old.Pairs.{
  ParamsMap, parse_pairs, parse_loop, read_pair, read_length, four_bytes, read_strings, string_at,
  write_pair, write_length,
}
use santiago_old.Pairs.Bounds.{parse_pairs-total}
use santiago_old.Pairs.RoundTrip.{write_pairs, insert_all, parse_pairs-write_pairs}
use santiago_old.PacketSocket.{
  PacketSocket, opened, new_packet_socket, buffer_sequence, write_packet,
}
use santiago_old.PacketSocket.Read.{handle_read, after_read, read_header}
use santiago_old.PacketSocket.Frames.{
  IsPacket, packet_bytes, packets_bytes, header_of, buffer_sequence_aligned,
}
use santiago_old.PacketSocket.Writing.{
  pieces_of, put_packets, joined, FitsPacket, IsFilled, write_packet_cuts,
}
use santiago_old.PacketSocket.Reading.{serve_packets, handle_read-serve_packets}
use santiago_old.RecordSocket.{Replying, send_reply}
use santiago_old.RecordSocket.Reply.{Replies, send_reply-Replies}
use santiago_old.RecordSocket.Answers.{Sends, reply_packets, send_reply-Sends}
use santiago_old.Connection.{Connection, host, new_connection}
use santiago_old.Connection.Sockets.{connection_host}
use santiago_old.Tests.{quiet_socket, blank_data, memory, begin_packet}

-- A=B, and a name of 200 bytes that the input does not hold.
parse_pairs_cut :
    parse_pairs (1 ∷ 1 ∷ 65 ∷ 66 ∷ 200 ∷ 0 ∷ 0 ∷ 200 ∷ 0 ∷ []) [] ≡ ok ((65 ∷ [], 66 ∷ []) ∷ [])
unfolding parse_pairs parse_loop read_pair read_length four_bytes read_strings string_at
    santiago_old.OrderedMap.insert santiago_old.OrderedMap.place find
parse_pairs_cut = refl

parse_pairs-total_example : (result : ParamsMap) × (parse_pairs (0x80 ∷ 1 ∷ 0 ∷ []) [] ≡ ok result)
parse_pairs-total_example = parse_pairs-total (0x80 ∷ 1 ∷ 0 ∷ []) []

abbrev two_pairs : List (List ℕ × List ℕ)
two_pairs = (bytes "SCRIPT", bytes "/index") ∷ (bytes "METHOD", bytes "GET") ∷ []

two_pairs_short : length (write_pairs [] two_pairs) < 2 ^ 32
unfolding write_pairs write_pair write_length
two_pairs_short = omega arith

parse_pairs-write_pairs_example :
    parse_pairs (write_pairs [] two_pairs) [] ≡ ok (insert_all two_pairs [])
parse_pairs-write_pairs_example =
    parse_pairs-write_pairs two_pairs []
      ((omega arith, omega arith), ((omega arith, omega arith), tt)) two_pairs_short

buffer_sequence_aligned_example : length (buffer_sequence 7 6 (104 ∷ 105 ∷ [])) % 8 ≡ 0
buffer_sequence_aligned_example = buffer_sequence_aligned 7 6 (104 ∷ 105 ∷ [])

abbrev open_socket : PacketSocket
open_socket = new_packet_socket quiet_socket

open_socket_opened : open_socket.state ≡ opened
unfolding new_packet_socket
open_socket_opened = refl

write_packet_cuts_example :
    (write_packet 7 6 2 (104 ∷ 105 ∷ []) open_socket ≡ (
      ok (put_packets 7 6 (pieces_of (104 ∷ 105 ∷ [])) open_socket).0,
      (put_packets 7 6 (pieces_of (104 ∷ 105 ∷ [])) open_socket).1,
    ))
    × (joined (pieces_of (104 ∷ 105 ∷ [])) ≡ 104 ∷ 105 ∷ [])
    × All FitsPacket (pieces_of (104 ∷ 105 ∷ []))
    × (0 < 2 → All IsFilled (pieces_of (104 ∷ 105 ∷ [])))
write_packet_cuts_example = write_packet_cuts 7 6 (104 ∷ 105 ∷ []) open_socket open_socket_opened

abbrev fresh : Connection
fresh = new_connection quiet_socket memory

fresh_opened : fresh.packet_socket.state ≡ opened
unfolding new_connection new_packet_socket
fresh_opened = refl

fresh_empty :
    fresh.packet_socket.input_buffer ++ packets_bytes (begin_packet ∷ [])
    ≡ packets_bytes (begin_packet ∷ []) ++ []
unfolding new_connection new_packet_socket packets_bytes packet_bytes header_bytes header_of
fresh_empty = refl

nothing_left : read_header [] ≡ none
unfolding read_header
nothing_left = refl

begin_packet-IsPacket : IsPacket begin_packet
begin_packet-IsPacket = record { id_fits = omega arith; content_fits = omega arith }

handle_read-serve_packets_example :
    handle_read host false (packets_bytes (begin_packet ∷ [])) fresh
    ≡ serve_packets host
        (begin_packet ∷ [])
        (after_read host (packets_bytes (begin_packet ∷ [])) fresh)
handle_read-serve_packets_example =
    handle_read-serve_packets host connection_host (begin_packet ∷ []) []
      (packets_bytes (begin_packet ∷ [])) fresh (begin_packet-IsPacket, tt) (inl nothing_left)
      fresh_opened fresh_empty

-- A reply with output and without errors.
abbrev hello : Replying
hello = record {
  packet_socket = open_socket;
  request = record blank_data { out_buffer = 104 ∷ 105 ∷ [] };
}

send_reply-Replies_example : Replies hello (send_reply 7 hello)
send_reply-Replies_example = send_reply-Replies 7 hello

open_socket_reliable : (k : ℕ) → open_socket.protocol_socket.write_fails k ≡ false
unfolding new_packet_socket
open_socket_reliable k = refl

send_reply-Sends_example :
    Sends hello (reply_packets 7 hello.request) (send_reply 7 hello)
    × All IsPacket (reply_packets 7 hello.request)
send_reply-Sends_example =
    send_reply-Sends 7 hello open_socket_opened open_socket_reliable (omega arith) (omega arith)
