-- ===== src/RecordSocket/Decoding.antt =====
-- Fastcgi/RecordSocket.h: sendReply, and the streams that a peer reads out of its packets.
use santiago_old.Prelude.{
  ℕ, ◌+◌, ◌*◌, ◌%◌, ◌^◌, ◌≡◌, refl, sym, ap, inl, inr, true, false, Bool-cases, List, [], ◌∷◌, ◌++◌,
  append_assoc, arith, All, map, Option, none, some, length, ◌==◌, if◌then◌else◌,
}
use santiago_old.Protocol
use santiago_old.PacketSocket.Frames.{written_packet}
use santiago_old.PacketSocket.Writing.{
  pieces_of, pieces, joined, joined-pieces_of, IsFilled, pieces_of-IsFilled,
}
use santiago_old.PacketSocket.Wire.{packets_of}
use santiago_old.PacketSocket.Peer.{Frame, frame_of}
use santiago_old.RecordSocket.Answers.{stream_packets, end_packets}

abbrev pub prepend : List ℕ → Option (List ℕ) → Option (List ℕ)
prepend b none = none
prepend b (some c) = some (b ++ c)

-- A stream is the joined contents of its packets up to an empty one; without that it has no end.
unfoldable pub stream_of : ℕ → List Frame → Option (List ℕ)
stream_of type [] = none
stream_of type (f ∷ rest) =
    let more = stream_of type rest in
    if f.type == type
    then if length f.content == 0 then some [] else prepend f.content more
    else more

-- The status in an FCGI_EndRequestBody.
abbrev status_in : List ℕ → Option ℕ
status_in (a ∷ b ∷ c ∷ d ∷ rest) = some (a * 2 ^ 24 + b * 2 ^ 16 + c * 2 ^ 8 + d)
status_in _ = none

unfoldable pub status_of : List Frame → Option ℕ
status_of [] = none
status_of (f ∷ rest) =
    let more = status_of rest in
    if f.type == Protocol.fcgi_end_request then status_in f.content else more

prepend-nil : (c : Option (List ℕ)) → c ≡ prepend [] c
prepend-nil none = refl
prepend-nil (some c) = refl

prepend-prepend :
    (a b : List ℕ) (c : Option (List ℕ)) → prepend a (prepend b c) ≡ prepend (a ++ b) c
prepend-prepend a b none = refl
prepend-prepend a b (some c) = ap some (sym (append_assoc a b c))

length-nil : (b : List ℕ) → (length b == 0) ≡ true → b ≡ []
length-nil [] h = refl
length-nil (x ∷ b) h = absurd (ground (arith, h))

module _ (i t : ℕ) where
  abbrev chunk : List ℕ → Frame
  chunk b = frame_of (written_packet i t b)

  chunks_other :
      (u : ℕ) (ps : List (List ℕ)) (rest : List Frame)
      → (t == u) ≡ false
      → stream_of u (map frame_of (map (written_packet i t) ps) ++ rest) ≡ stream_of u rest
  unfolding stream_of written_packet
  chunks_other u [] rest h = refl
  chunks_other u (p ∷ ps) rest h = rw (chunks_other u ps rest h, h) refl

  chunks_own :
      (ps : List (List ℕ)) (rest : List Frame)
      → All IsFilled ps
      → stream_of t (map frame_of (map (written_packet i t) ps) ++ rest)
        ≡ prepend (joined ps) (stream_of t rest)
  unfolding stream_of written_packet joined
  chunks_own [] rest h = prepend-nil (stream_of t rest)
  chunks_own (p ∷ ps) rest (h, hs) =
      let more : (length p == 0) ≡ false = ground (arith, h) in
      let own : (t == t) ≡ true = ground arith in
      rw (own, more, chunks_own ps rest hs) (prepend-prepend p (joined ps) (stream_of t rest))

  chunks_status :
      (ps : List (List ℕ)) (rest : List Frame)
      → (t == Protocol.fcgi_end_request) ≡ false
      → status_of (map frame_of (map (written_packet i t) ps) ++ rest) ≡ status_of rest
  unfolding status_of written_packet
  chunks_status [] rest h = refl
  chunks_status (p ∷ ps) rest h = rw (chunks_status ps rest h, h) refl

  -- The packets of one buffer.
  pub own_stream :
      (b : List ℕ) (rest : List Frame)
      → stream_of t (map frame_of (stream_packets i t b) ++ rest) ≡ prepend b (stream_of t rest)
  unfolding stream_packets packets_of
  own_stream b rest = elim (Bool-cases (length b == 0)) [
    | inl e ↦ rw e (rw (length-nil b e) (prepend-nil (stream_of t rest)))
    | inr e ↦ rw e (
        rw
          (
            chunks_own (pieces_of b) rest (pieces_of-IsFilled b (ground (arith, e))),
            joined-pieces_of b,
          )
          refl)
  ]

  pub other_stream :
      (u : ℕ) (b : List ℕ) (rest : List Frame)
      → (t == u) ≡ false
      → stream_of u (map frame_of (stream_packets i t b) ++ rest) ≡ stream_of u rest
  unfolding stream_packets packets_of
  other_stream u b rest h = elim (Bool-cases (length b == 0)) [
    | inl e ↦ rw e refl
    | inr e ↦ rw e (chunks_other u (pieces_of b) rest h)
  ]

  pub stream_status :
      (b : List ℕ) (rest : List Frame)
      → (t == Protocol.fcgi_end_request) ≡ false
      → status_of (map frame_of (stream_packets i t b) ++ rest) ≡ status_of rest
  unfolding stream_packets packets_of
  stream_status b rest h = elim (Bool-cases (length b == 0)) [
    | inl e ↦ rw e refl
    | inr e ↦ rw e (chunks_status (pieces_of b) rest h)
  ]

-- The three packets that end a reply.
module _ (i status : ℕ) where
  abbrev pub ending : List Frame
  ending = map frame_of (end_packets i status)

  pub ending_out : stream_of Protocol.fcgi_stdout ending ≡ some []
  unfolding stream_of end_packets packets_of pieces written_packet Protocol.end_request_body
  ending_out = refl

  pub ending_err : stream_of Protocol.fcgi_stderr ending ≡ some []
  unfolding stream_of end_packets packets_of pieces written_packet Protocol.end_request_body
  ending_err = refl

  pub ending_status : status_of ending ≡ some (status % 2 ^ 32)
  unfolding status_of end_packets packets_of pieces written_packet Protocol.end_request_body
  ending_status = ap some (omega arith)
