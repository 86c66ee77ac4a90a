-- ===== src/Connection/HandOver.antt =====
-- Fastcgi/Connection.h: the requests that a connection hands to the acceptor.
use santiago_old.Prelude.{
  ℕ, ◌+◌, ◌≤◌, ◌≡◌, ◌∙◌, ◌⊎◌, inl, inr, refl, Bool-cases, List, [], ◌∷◌, ◌++◌, arith, ◌==◌,
  if◌then◌else◌,
}
use santiago_old.Exec.{Outcome, ok, thrown, halted, continue}
use santiago_old.OrderedMap.{nat_key, find}
use santiago_old.PacketSocket.{ProtocolSocket}
use santiago_old.RequestData.{RequestData}
use santiago_old.ConnectionData.{ConnectionData, Notice, quiet, request_ready, became_empty, clear}
use santiago_old.ConnectionData.Changes.{Op, perform, perform-Change, notice_of}
use santiago_old.ConnectionData.Addresses.{IsAddressed, Change-IsAddressed, new-IsAddressed}
use santiago_old.ConnectionData.Readiness.{
  ready_for, IsAnnounced, IsAnnounced-step, announcing_step,
}
use santiago_old.RecordSocket
use santiago_old.Connection.{
  Connection, AcceptorCall, new_request_call, close_call, is_closing, close_and_cleanup,
  handle_on_empty, handle_request_ready, on_notice, on_data, start, new_connection,
}
use santiago_old.Connection.Packets.{Keeps}
use santiago_old.Connection.Steps.{StepLaws, step-Keeps}
use santiago_old.Connection.Life.{Reach, here, next, started}

-- How often _newRequestCallbackFn was called with an object.
unfoldable pub handed_over : ℕ → List AcceptorCall → ℕ
handed_over p [] = 0
handed_over p (new_request_call i q ∷ calls) = (if p == q then 1 else 0) + handed_over p calls
handed_over p (close_call ∷ calls) = handed_over p calls

pub handed_over-append :
    (p : ℕ) (xs ys : List AcceptorCall)
    → handed_over p (xs ++ ys) ≡ handed_over p xs + handed_over p ys
unfolding handed_over
handed_over-append p [] ys = omega arith
handed_over-append p (new_request_call i q ∷ xs) ys = omega (arith, handed_over-append p xs ys)
handed_over-append p (close_call ∷ xs) ys = handed_over-append p xs ys

-- The object was handed over not yet, or once and is announced in the data.
record HandsOnce (p : ℕ) (c : Connection) : Type 0 where
  addressed : IsAddressed c.connection_data
  handed :
      (handed_over p c.calls ≡ 0) ⊎ ((handed_over p c.calls ≡ 1) × IsAnnounced c.connection_data p)

pub clear-IsAddressed : (d : ConnectionData) → IsAddressed d → IsAddressed (clear d)
unfolding clear find
clear-IsAddressed d v = record { fresh = λ i e h. cc; apart = λ i j e e' h h' eq. cc }

clear-IsAnnounced : (p : ℕ) (d : ConnectionData) → IsAnnounced d p → IsAnnounced (clear d) p
unfolding clear find
clear-IsAnnounced p d v = record { allocated = v.allocated; complete = λ i e h at. cc }

module _ (p : ℕ) where
  pub closed_calls :
      (calls : List AcceptorCall) → handed_over p (calls ++ (close_call ∷ [])) ≡ handed_over p calls
  unfolding handed_over
  closed_calls calls = omega (arith, handed_over-append p calls (close_call ∷ []))

  close_and_cleanup-HandsOnce : Keeps (HandsOnce p) close_and_cleanup
  unfolding close_and_cleanup
  close_and_cleanup-HandsOnce = record {
    at = λ c v. record {
      addressed = clear-IsAddressed c.connection_data v.addressed;
      handed = elim v.handed [
        | inl none_yet ↦ inl (closed_calls c.calls ∙ none_yet)
        | inr (once, announced) ↦
            inr (closed_calls c.calls ∙ once, clear-IsAnnounced p c.connection_data announced)
      ];
    };
  }

  -- After an operation: the data is changed, and its callback is still to be made.
  record Pending (n : Notice) (c : Connection) : Type 0 where
    addressed : IsAddressed c.connection_data
    handed :
        (handed_over p c.calls + ready_for p n ≡ 0)
        ⊎ ((handed_over p c.calls + ready_for p n ≡ 1) × IsAnnounced c.connection_data p)

  settled : (n : Notice) (c : Connection) → ready_for p n ≡ 0 → Pending n c → HandsOnce p c
  settled n c zero_now v = record {
    addressed = v.addressed;
    handed = elim v.handed [
      | inl none_yet ↦ inl (omega (arith, none_yet, zero_now))
      | inr (once, announced) ↦ inr (omega (arith, once, zero_now), announced)
    ];
  }

  pub called_with :
      (i q : ℕ) (calls : List AcceptorCall)
      → handed_over p (calls ++ (new_request_call i q ∷ []))
        ≡ handed_over p calls + ready_for p (request_ready i q)
  unfolding handed_over ready_for
  called_with i q calls = omega (arith, handed_over-append p calls (new_request_call i q ∷ []))

  notice-HandsOnce :
      (r : Outcome Notice) (c : Connection)
      → Pending (notice_of r) c
      → HandsOnce p (continue r on_notice c).1
  unfolding on_notice handle_request_ready handle_on_empty
  notice-HandsOnce (ok quiet) c v = settled quiet c (unfold ready_for in refl) v
  notice-HandsOnce (ok (request_ready i q)) c v = record {
    addressed = v.addressed;
    handed = elim v.handed [
      | inl none_yet ↦ inl (called_with i q c.calls ∙ none_yet)
      | inr (once, announced) ↦ inr (called_with i q c.calls ∙ once, announced)
    ];
  }
  notice-HandsOnce (ok became_empty) c v =
      let w = settled became_empty c (unfold ready_for in refl) v in
      elim (Bool-cases (is_closing c.state)) [
        | inl e ↦ rw e (close_and_cleanup-HandsOnce.at c w)
        | inr e ↦ rw e w
      ]
  notice-HandsOnce (thrown x) c v = settled quiet c (unfold ready_for in refl) v
  notice-HandsOnce (halted x) c v = settled quiet c (unfold ready_for in refl) v

  operation-Pending :
      (op : Op) (c : Connection)
      → HandsOnce p c
      → Pending
          (notice_of (perform op c.connection_data).0)
          (record c { connection_data = (perform op c.connection_data).1 })
  operation-Pending op c v =
      let change = perform-Change op c.connection_data in
      record {
        addressed = Change-IsAddressed change v.addressed;
        handed = elim v.handed [
          | inl none_yet ↦ elim (announcing_step p change v.addressed) [
            | inl not_now ↦ inl (omega (arith, none_yet, not_now))
            | inr (now, announced) ↦ inr (omega (arith, none_yet, now), announced)
          ]
          | inr (once, announced) ↦
              let (announced', not_now) = IsAnnounced-step p change announced in
              inr (omega (arith, once, not_now), announced')
        ];
      }

  operation-HandsOnce : (op : Op) → Keeps (HandsOnce p) (on_data (perform op))
  unfolding on_data
  operation-HandsOnce op = record { at = λ c v. notice-HandsOnce _ _ (operation-Pending op c v) }

  HandsOnce-laws : StepLaws (HandsOnce p)
  HandsOnce-laws = record {
    socket = λ c q v. record { addressed = v.addressed; handed = v.handed };
    objects = λ c o v. same_map c o v;
    operation = operation-HandsOnce;
    closes = close_and_cleanup-HandsOnce;
    winds = λ c v. record { addressed = v.addressed; handed = v.handed };
  }
    where
      same_map :
          (c : Connection) (o : ℕ → RequestData)
          → HandsOnce p c
          → HandsOnce p (record c { connection_data = record c.connection_data { objects = o } })
      same_map c o v = record {
        addressed = record { fresh = v.addressed.fresh; apart = v.addressed.apart };
        handed = elim v.handed [
          | inl none_yet ↦ inl none_yet
          | inr (once, announced) ↦
              inr (once, record { allocated = announced.allocated; complete = announced.complete })
        ];
      }

  started-HandsOnce :
      (socket : ProtocolSocket) (memory : ℕ → RequestData) → HandsOnce p (started socket memory)
  unfolding start RecordSocket.start new_connection handed_over
  started-HandsOnce socket memory = record { addressed = new-IsAddressed memory; handed = inl refl }

  reach-HandsOnce : (c d : Connection) → Reach c d → HandsOnce p c → HandsOnce p d
  reach-HandsOnce c d here v = v
  reach-HandsOnce c d (next {d = x} r e enabled run) v =
      rw run ((step-Keeps HandsOnce-laws e).at x (reach-HandsOnce c x r v))

-- In every history of a connection, the object of any one request is handed to the acceptor at most
-- once, whatever the peer sends and whenever replies are posted.
pub handed_over_once :
    (p : ℕ) (socket : ProtocolSocket) (memory : ℕ → RequestData) (c : Connection)
    → Reach (started socket memory) c
    → handed_over p c.calls ≤ 1
handed_over_once p socket memory c r =
    elim (reach-HandsOnce p (started socket memory) c r
      (started-HandsOnce p socket memory)).handed [
        | inl none_yet ↦ omega (arith, none_yet)
        | inr (once, _) ↦ omega (arith, once)
      ]
