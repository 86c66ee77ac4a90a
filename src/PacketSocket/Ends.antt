-- ===== src/PacketSocket/Ends.antt =====
-- Fastcgi/PacketSocket.h: the end of the loop of handleRead.
use santiago_old.Prelude.{
  ℕ, zero, suc, ◌+◌, ◌≤◌, ◌<◌, ◌≡◌, refl, inl, inr, ap, Bool, true, false, not, some, Option-cases,
  List, [], ◌∷◌, arith, length, length-drop, ltb, ◌==◌, if◌then◌else◌,
}
use santiago_old.Exec.{Exec, Outcome, ok, thrown, halted, continue}
use santiago_old.Exec.Ends.{Ends, ok-Ends, if-Ends}
use santiago_old.Protocol.{Header}
use santiago_old.PacketSocket.{is_closed}
use santiago_old.PacketSocket.Read.{
  Host, read_header, packet_size, consume, handle_packet, after_try, read_round, read_loop,
  after_read, handle_read,
}
use santiago_old.PacketSocket.Reading.{HostLaws}

-- A header takes eight bytes of the buffer.
read_header-length : (b : List ℕ) (k : Header) → read_header b ≡ some k → 8 ≤ length b
unfolding read_header
read_header-length [] k eq = cc
read_header-length (a ∷ []) k eq = cc
read_header-length (a ∷ b ∷ []) k eq = cc
read_header-length (a ∷ b ∷ c ∷ []) k eq = cc
read_header-length (a ∷ b ∷ c ∷ d ∷ []) k eq = cc
read_header-length (a ∷ b ∷ c ∷ d ∷ e ∷ []) k eq = cc
read_header-length (a ∷ b ∷ c ∷ d ∷ e ∷ f ∷ []) k eq = cc
read_header-length (a ∷ b ∷ c ∷ d ∷ e ∷ f ∷ g ∷ []) k eq = cc
read_header-length (a ∷ b ∷ c ∷ d ∷ e ∷ f ∷ g ∷ h ∷ rest) k eq = omega arith

module _ {S : Type 0} (host : Host S) (laws : HostLaws host) where
  buffered : S → ℕ
  buffered s = length (host.socket s).input_buffer

  buffered-consume :
      (h : Header) (s : S)
      → 8 ≤ buffered s
      → buffered (consume host (packet_size h) s) + 8 ≤ buffered s
  unfolding consume buffered
  buffered-consume h s e =
      rw (laws.socket-with_socket s _)
        (omega (arith, length-drop (packet_size h) (host.socket s).input_buffer))

  -- After the try block of a packet: the loop goes on with a shorter buffer, or with the buffer as it
  -- was and the catch.
  AfterPacket : S → Outcome Bool × S → Type 0
  AfterPacket s (ok true, t) = buffered t + 8 ≤ buffered s
  AfterPacket s (ok false, t) = Unit
  AfterPacket s (thrown e, t) = buffered t ≡ buffered s
  AfterPacket s (halted x, t) = Ends {A = Bool} (halted x)

  if-AfterPacket :
      (s : S) (b : Bool) (x y : Outcome Bool × S)
      → AfterPacket s x
      → AfterPacket s y
      → AfterPacket s (if b then x else y)
  if-AfterPacket s true x y hx hy = hx
  if-AfterPacket s false x y hx hy = hy

  goes_on : (s t : S) (b : Bool) → buffered t + 8 ≤ buffered s → AfterPacket s (ok b, t)
  unfolding AfterPacket
  goes_on s t true h = h
  goes_on s t false h = tt

  module _
      (packet-Ends : (i t : ℕ) (b : List ℕ) (s : S) → Ends (host.new_packet false i t b s).0) where
    callback-AfterPacket :
        (h : Header) (s u : S) (r : Outcome (Unit {0}))
        → 8 ≤ buffered s
        → buffered u ≡ buffered s
        → Ends r
        → AfterPacket s (
            continue r
              (λ _ w. (
                ok (not (is_closed (host.socket (consume host (packet_size h) w)).state)),
                consume host (packet_size h) w,
              ))
              u)
    unfolding AfterPacket
    callback-AfterPacket h s u (ok x) e same ends =
        goes_on s _ _ (omega (arith, buffered-consume h u (omega arith), same))
    callback-AfterPacket h s u (thrown x) e same ends = same
    callback-AfterPacket h s u (halted x) e same ends = λ eq. ends cc

    handle_packet-AfterPacket :
        (h : Header) (s : S) → 8 ≤ buffered s → AfterPacket s (handle_packet host h s)
    unfolding handle_packet AfterPacket buffered
    handle_packet-AfterPacket h s e =
        if-AfterPacket s (h.version == 1) _ _
          (if-AfterPacket s (ltb (length (host.socket s).input_buffer) (packet_size h)) _ _ tt (
            callback-AfterPacket h s _ _ e (ap length (laws.keeps_input _ _ _ _ s))
              (packet-Ends _ _ _ s)))
          refl

    after_try-Ends :
        (next : Exec S (Unit {0})) (h : Header) (s : S) (x : Outcome Bool × S)
        → 8 ≤ buffered s
        → AfterPacket s x
        → ((t : S) → buffered t < buffered s → Ends (next t).0)
        → Ends (after_try host next h x.0 x.1).0
    unfolding after_try AfterPacket
    after_try-Ends next h s (ok true, t) e v rest = rest t (omega (arith, v))
    after_try-Ends next h s (ok false, t) e v rest = ok-Ends tt
    after_try-Ends next h s (thrown x, t) e v rest =
        rest _ (omega (arith, v, buffered-consume h t (omega (arith, v))))
    after_try-Ends next h s (halted x, t) e v rest = λ eq. v cc

    -- One round, where the rest of the loop ends on any shorter buffer.
    read_round-Ends :
        (next : Exec S (Unit {0})) (s : S)
        → ((t : S) → buffered t < buffered s → Ends (next t).0)
        → Ends (read_round host next (read_header (host.socket s).input_buffer) s).0
    unfolding read_round
    read_round-Ends next s rest = elim (Option-cases (read_header (host.socket s).input_buffer)) [
      | inl e ↦ rw (e, read_round) (ok-Ends tt)
      | inr (k, e) ↦
          let long : 8 ≤ buffered s = unfold buffered in read_header-length _ k e in
          rw (e, read_round)
            (after_try-Ends next k s (handle_packet host k s) long
              (handle_packet-AfterPacket k s long) rest)
    ]

    read_loop-Ends : (fuel : ℕ) (s : S) → buffered s < fuel → Ends (read_loop host fuel s).0
    unfolding read_loop
    read_loop-Ends zero s h = absurd (omega arith)
    read_loop-Ends (suc fuel) s h =
        read_round-Ends (read_loop host fuel) s
          (λ t less. read_loop-Ends fuel t (omega (arith, less, h)))

    -- handleRead ends if every callback does.
    pub handle_read-Ends :
        (error-Ends : (s : S) → Ends (host.new_packet true 0 0 [] s).0) (error : Bool)
        (received : List ℕ) (s : S)
        → Ends (handle_read host error received s).0
    unfolding handle_read
    handle_read-Ends error-Ends error received s =
        let t = after_read host received s in
        let enough : buffered t < suc (length (host.socket t).input_buffer) =
          unfold buffered in omega arith in
        if-Ends (is_closed (host.socket t).state) _ _ (ok-Ends tt)
          (if-Ends error _ _ (error-Ends _) (read_loop-Ends _ t enough))
