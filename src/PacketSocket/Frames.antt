-- ===== src/PacketSocket/Frames.antt =====
-- Fastcgi/PacketSocket.h: packets and their bytes, written and read.
use santiago_old.Prelude.{
  ℕ, ◌+◌, ◌/◌, ◌%◌, ◌^◌, ◌≤◌, ◌<◌, ◌≡◌, refl, List, [], ◌∷◌, ◌++◌, append_assoc, arith, some,
  length, length-append, length-replicate, take, drop, take-append_length, drop-append_length,
  replicate,
}
use santiago_old.Protocol.{Header, header_bytes, fcgi_version_1}
use santiago_old.PacketSocket.{padding_of, packet_header, buffer_sequence}
use santiago_old.PacketSocket.Read.{read_header, content_length_of, request_id_of, packet_size}

-- A FastCGI packet, whoever sent it: its padding and its reserved byte may hold anything.
pub record Packet : Type 0 where
  pub request_id : ℕ
  pub type : ℕ
  pub content : List ℕ
  pub padding : List ℕ
  pub reserved : ℕ

-- The header fields hold 16 bits of an id and of a length.
pub record IsPacket (p : Packet) : Type 0 where
  pub id_fits : p.request_id < 2 ^ 16
  pub content_fits : length p.content < 2 ^ 16

unfoldable pub header_of : Packet → Header
header_of p = record {
  version = fcgi_version_1;
  type = p.type;
  request_id_b1 = p.request_id / 2 ^ 8 % 256;
  request_id_b0 = p.request_id % 256;
  content_length_b1 = length p.content / 2 ^ 8 % 256;
  content_length_b0 = length p.content % 256;
  padding_length = length p.padding;
  reserved = p.reserved;
}

unfoldable pub packet_bytes : Packet → List ℕ
packet_bytes p = header_bytes (header_of p) ++ (p.content ++ p.padding)

unfoldable pub packets_bytes : List Packet → List ℕ
packets_bytes [] = []
packets_bytes (p ∷ ps) = packet_bytes p ++ packets_bytes ps

module _ (p : Packet) (rest : List ℕ) where
  pub read_header-packet_bytes : read_header (packet_bytes p ++ rest) ≡ some (header_of p)
  unfolding read_header packet_bytes header_bytes header_of
  read_header-packet_bytes = refl

  pub version-header_of : (header_of p).version ≡ fcgi_version_1
  unfolding header_of
  version-header_of = refl

  pub type-header_of : (header_of p).type ≡ p.type
  unfolding header_of
  type-header_of = refl

  length-packet_bytes_raw : length (packet_bytes p) ≡ 8 + (length p.content + length p.padding)
  unfolding packet_bytes header_bytes
  length-packet_bytes_raw = omega (arith, length-append p.content p.padding)

  module _ (fits : IsPacket p) where
    pub request_id_of-header_of : request_id_of (header_of p) ≡ p.request_id
    unfolding header_of
    request_id_of-header_of = omega arith

    pub content_length_of-header_of : content_length_of (header_of p) ≡ length p.content
    unfolding header_of
    content_length_of-header_of = omega arith

    pub packet_size-header_of : packet_size (header_of p) ≡ length (packet_bytes p)
    unfolding header_of
    packet_size-header_of = omega (arith, length-packet_bytes_raw)

    pub content-packet_bytes :
        take (content_length_of (header_of p)) (drop 8 (packet_bytes p ++ rest)) ≡ p.content
    unfolding packet_bytes header_bytes
    content-packet_bytes =
        rw (content_length_of-header_of, append_assoc p.content p.padding rest)
          (take-append_length p.content (p.padding ++ rest))

    pub drop-packet_size : drop (packet_size (header_of p)) (packet_bytes p ++ rest) ≡ rest
    drop-packet_size = rw packet_size-header_of (drop-append_length (packet_bytes p) rest)

-- The packet that one round of writePacket writes.
unfoldable pub written_packet : ℕ → ℕ → List ℕ → Packet
written_packet request_id type content = record {
  request_id = request_id % 2 ^ 16;
  type = type;
  content = content;
  padding = replicate (padding_of (length content)) 0;
  reserved = 0;
}

pub buffer_sequence-packet_bytes :
    (request_id type : ℕ) (content : List ℕ)
    → buffer_sequence request_id type content
      ≡ packet_bytes (written_packet request_id type content)
unfolding buffer_sequence packet_header packet_bytes written_packet header_of header_bytes
buffer_sequence-packet_bytes request_id type content =
    ground (arith, length-replicate {A = ℕ} (padding_of (length content)) 0)

pub written_packet-IsPacket :
    (request_id type : ℕ) (content : List ℕ)
    → length content ≤ 0xffff
    → IsPacket (written_packet request_id type content)
unfolding written_packet
written_packet-IsPacket request_id type content h = omega arith

-- Every packet that is written takes a multiple of eight bytes on the wire.
pub buffer_sequence_aligned :
    (request_id type : ℕ) (content : List ℕ)
    → length (buffer_sequence request_id type content) % 8 ≡ 0
unfolding buffer_sequence packet_header header_bytes
buffer_sequence_aligned request_id type content = omega (
  arith,
  length-append content (replicate (padding_of (length content)) 0),
  length-replicate {A = ℕ} (padding_of (length content)) 0,
)
