-- ===== src/PacketSocket/Keeps.antt =====
-- Fastcgi/PacketSocket.h: predicates over the loop of handleRead.
use santiago_old.Prelude.{
  ℕ, zero, suc, Bool, true, false, not, List, Option, none, some, ltb, ◌==◌, if◌then◌else◌, length,
}
use santiago_old.Exec.{Exec, Outcome, ok, thrown, halted, continue}
use santiago_old.Protocol.{Header}
use santiago_old.PacketSocket.{is_closed}
use santiago_old.PacketSocket.Read.{
  Host, packet_size, consume, handle_packet, after_try, read_round, read_loop,
}

module _ {S : Type 0} (host : Host S) (P : S → Type 0)
    (packet : (i t : ℕ) (b : List ℕ) (s : S) → P s → P (host.new_packet false i t b s).1)
    (taken : (k : ℕ) (s : S) → P s → P (consume host k s)) where
  if-Keeps :
      {A : Type 0} (b : Bool) (x y : Outcome A × S) → P x.1 → P y.1 → P (if b then x else y).1
  if-Keeps true x y hx hy = hx
  if-Keeps false x y hx hy = hy

  callback-Keeps :
      (k : ℕ) (r : Outcome (Unit {0})) (t : S)
      → P t
      → P
          (continue r
            (λ _ u. (ok (not (is_closed (host.socket (consume host k u)).state)), consume host k u))
            t).1
  callback-Keeps k (ok x) t h = taken k t h
  callback-Keeps k (thrown e) t h = h
  callback-Keeps k (halted x) t h = h

  handle_packet-Keeps : (h : Header) (s : S) → P s → P (handle_packet host h s).1
  unfolding handle_packet
  handle_packet-Keeps h s p =
      if-Keeps (h.version == 1) _ _
        (if-Keeps (ltb (length (host.socket s).input_buffer) (packet_size h)) _ _ p
          (callback-Keeps (packet_size h) _ _ (packet _ _ _ s p)))
        p

  module _ (next : Exec S (Unit {0})) (rest : (s : S) → P s → P (next s).1) where
    after_try-Keeps :
        (h : Header) (r : Outcome Bool) (t : S) → P t → P (after_try host next h r t).1
    unfolding after_try
    after_try-Keeps h (ok true) t p = rest t p
    after_try-Keeps h (ok false) t p = p
    after_try-Keeps h (thrown e) t p = rest _ (taken (packet_size h) t p)
    after_try-Keeps h (halted x) t p = p

    read_round-Keeps : (o : Option Header) (s : S) → P s → P (read_round host next o s).1
    unfolding read_round
    read_round-Keeps none s p = p
    read_round-Keeps (some h) s p = after_try-Keeps h _ _ (handle_packet-Keeps h s p)

  pub read_loop-Keeps : (fuel : ℕ) (s : S) → P s → P (read_loop host fuel s).1
  unfolding read_loop
  read_loop-Keeps zero s p = p
  read_loop-Keeps (suc fuel) s p =
      read_round-Keeps (read_loop host fuel) (read_loop-Keeps fuel) _ s p
