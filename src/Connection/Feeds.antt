-- ===== src/Connection/Feeds.antt =====
-- Fastcgi/Connection.h: the chunks of one request in a read, from handleRead to its object.
use santiago_old.Prelude.{
  ℕ, ◌<◌, ◌≡◌, ◌∙◌, refl, inl, inr, false, List, [], ◌∷◌, ◌++◌, arith, length, ◌==◌, All,
}
use santiago_old.Exec.{ok}
use santiago_old.OrderedMap.{nat_key}
use santiago_old.PacketSocket.{PacketSocket}
use santiago_old.PacketSocket.Frames.{Packet}
use santiago_old.PacketSocket.Reading.{serve_packets}
use santiago_old.ConnectionData.{
  ConnectionData, Entry, quiet, handle_stdin, handle_params, has_flag, check_for_request_ready,
}
use santiago_old.ConnectionData.Changes.{Op, perform}
use santiago_old.ConnectionData.Addresses.{Holds, IsAddressed}
use santiago_old.ConnectionData.Addresses.{run}
use santiago_old.ConnectionData.Chunks.{Feeds, Feeds-step}
use santiago_old.Connection.Arrival.{Stage, IsChunk, op_of, quiet-Serves}
use santiago_old.Connection.{Connection, host, AcceptorCall}

-- A chunk with content, while the streams of its request are open.
chunk_quiet :
    (i : ℕ) (p : Packet) (d : ConnectionData) (e : Entry)
    → IsChunk i p
    → 0 < length p.content
    → Holds d i e
    → e.request_state ≡ 0
    → (perform (op_of p) d).0 ≡ ok quiet
unfolding perform handle_stdin handle_params has_flag check_for_request_ready
chunk_quiet i p d e v filled held fresh =
    let more : (length p.content == 0) ≡ false = ground (arith, filled) in
    elim v.stream [
      | inl t ↦ rw (t, v.own, held, fresh, more, handle_params) refl
      | inr t ↦ rw (t, v.own, held, fresh, more, handle_stdin) refl
    ]

chunk-Feeds : (i : ℕ) (p : Packet) → IsChunk i p → 0 < length p.content → Feeds i (op_of p)
chunk-Feeds i p v filled = elim v.stream [ inl t ↦ rw t (inr filled) | inr t ↦ rw t (inr filled) ]

unfoldable pub ops_of : List Packet → List Op
ops_of [] = []
ops_of (p ∷ ps) = op_of p ∷ ops_of ps

-- Chunks of one request, each with content.
pub record IsFeed (i : ℕ) (p : Packet) : Type 0 where
  pub chunk : IsChunk i p
  pub filled : 0 < length p.content

pub ops_of-Feeds : (i : ℕ) (ps : List Packet) → All (IsFeed i) ps → All (Feeds i) (ops_of ps)
unfolding ops_of
ops_of-Feeds i [] v = tt
ops_of-Feeds i (p ∷ ps) (v, vs) = (chunk-Feeds i p v.chunk v.filled, ops_of-Feeds i ps vs)

module _ (start : PacketSocket) where
  -- After chunks of a request the other packets are served from here.
  pub record Feeding (chunks ps : List Packet) (d : ConnectionData) (calls : List AcceptorCall)
      (s : Connection) : Type 0 where
    pub next : Connection
    pub served : serve_packets host (chunks ++ ps) s ≡ serve_packets host ps next
    pub stage : Stage start d calls next

  pub chunks-Feeding :
      (i : ℕ) (chunks ps : List Packet) (d : ConnectionData) (e : Entry) (calls : List AcceptorCall)
      (s : Connection)
      → All (IsFeed i) chunks
      → IsAddressed d
      → Holds d i e
      → e.request_state ≡ 0
      → Stage start d calls s
      → Feeding chunks ps (run (ops_of chunks) d) calls s
  unfolding ops_of run
  chunks-Feeding i [] ps d e calls s vs addressed held fresh stage = record {
    next = s;
    served = refl;
    stage = stage;
  }
  chunks-Feeding i (p ∷ chunks) ps d e calls s (v, vs) addressed held fresh stage =
      let first =
        quiet-Serves start i p (chunks ++ ps) d calls s v.chunk
          (chunk_quiet i p d e v.chunk v.filled held fresh) stage in
      let fed =
        Feeds-step (op_of p) d i e addressed held fresh (chunk-Feeds i p v.chunk v.filled) in
      let others =
        chunks-Feeding i chunks ps (perform (op_of p) d).1 e calls first.next vs fed.addressed
          fed.held fresh first.stage in
      record { next = others.next; served = first.served ∙ others.served; stage = others.stage }
