-- ===== src/Connection/Tally.antt =====
-- Fastcgi/Connection.h: the calls of _newRequestCallbackFn, counted for each object, beside the
-- requests that the connection holds.
use santiago_old.Prelude.{ℕ, ◌+◌, ◌≡◌, ◌∙◌, inl, inr, refl, Bool-cases, arith, if◌then◌else◌}
use santiago_old.Exec.{Outcome, ok, thrown, halted, continue}
use santiago_old.OrderedMap.{nat_key, find}
use santiago_old.PacketSocket.{ProtocolSocket}
use santiago_old.RequestData.{RequestData}
use santiago_old.ConnectionData.{
  ConnectionData, Entry, Notice, quiet, request_ready, became_empty, clear,
}
use santiago_old.ConnectionData.Changes.{Op, perform, perform-Change, notice_of, is_complete}
use santiago_old.ConnectionData.Addresses.{Holds, new-IsAddressed}
use santiago_old.ConnectionData.Readiness.{ready_for}
use santiago_old.ConnectionData.Tally.{IsTallied, Change-IsTallied}
use santiago_old.RecordSocket
use santiago_old.Connection.{
  Connection, is_closing, close_and_cleanup, handle_on_empty, handle_request_ready, on_notice,
  on_data, start, new_connection, Event, step,
}
use santiago_old.Connection.Packets.{Keeps}
use santiago_old.Connection.Steps.{StepLaws, step-Keeps}
use santiago_old.Connection.HandOver.{handed_over, closed_calls, called_with, clear-IsAddressed}
use santiago_old.Connection.Life.{Reach, here, next, started}

-- Each request was handed over once if it is complete, and not before.
pub record HandsComplete (c : Connection) : Type 0 where
  pub tallied : IsTallied (λ p. handed_over p c.calls) c.connection_data

-- The same with the callback still to be made.
abbrev HandsWith : Notice → Connection → Type 0
HandsWith n c = IsTallied (λ p. handed_over p c.calls + ready_for p n) c.connection_data

retally : {d : ConnectionData} (f g : ℕ → ℕ) → ((p : ℕ) → g p ≡ f p) → IsTallied f d → IsTallied g d
retally f g same v = record {
  addressed = v.addressed;
  exact = λ i e h. same e.request_data ∙ v.exact i e h;
  unused = λ p h. same p ∙ v.unused p h;
  once = λ p. omega (arith, same p, v.once p);
}

clear-IsTallied : (f : ℕ → ℕ) (d : ConnectionData) → IsTallied f d → IsTallied f (clear d)
unfolding clear find
clear-IsTallied f d v = record {
  addressed = unfold clear in clear-IsAddressed d v.addressed;
  exact = λ i e h. cc;
  unused = v.unused;
  once = v.once;
}

close_and_cleanup-HandsComplete : Keeps HandsComplete close_and_cleanup
unfolding close_and_cleanup
close_and_cleanup-HandsComplete = record {
  at = λ c v. record {
    tallied =
        retally (λ p. handed_over p c.calls) _ (λ p. closed_calls p c.calls)
          (clear-IsTallied _ c.connection_data v.tallied);
  };
}

settled :
    (n : Notice) (c : Connection) → ((p : ℕ) → ready_for p n ≡ 0) → HandsWith n c → HandsComplete c
settled n c zero_now v = record {
  tallied =
      retally (λ p. handed_over p c.calls + ready_for p n) (λ p. handed_over p c.calls)
        (λ p. omega (arith, zero_now p)) v;
}

notice-HandsComplete :
    (r : Outcome Notice) (c : Connection)
    → HandsWith (notice_of r) c
    → HandsComplete (continue r on_notice c).1
unfolding on_notice handle_request_ready handle_on_empty
notice-HandsComplete (ok (request_ready i q)) c v = record {
  tallied = retally _ _ (λ p. called_with p i q c.calls) v;
}
notice-HandsComplete (ok quiet) c v = settled quiet c (λ p. unfold ready_for in refl) v
notice-HandsComplete (ok became_empty) c v =
    let w = settled became_empty c (λ p. unfold ready_for in refl) v in
    elim (Bool-cases (is_closing c.state)) [
      | inl e ↦ rw e (close_and_cleanup-HandsComplete.at c w)
      | inr e ↦ rw e w
    ]
notice-HandsComplete (thrown x) c v = settled quiet c (λ p. unfold ready_for in refl) v
notice-HandsComplete (halted x) c v = settled quiet c (λ p. unfold ready_for in refl) v

operation-HandsComplete : (op : Op) → Keeps HandsComplete (on_data (perform op))
unfolding on_data
operation-HandsComplete op = record {
  at = λ c v.
      notice-HandsComplete (perform op c.connection_data).0
        (record c { connection_data = (perform op c.connection_data).1 })
        (Change-IsTallied (λ p. handed_over p c.calls) _ (λ p. refl) v.tallied
          (perform-Change op c.connection_data));
}

same_map-IsTallied :
    (f : ℕ → ℕ) (d : ConnectionData) (o : ℕ → RequestData)
    → IsTallied f d
    → IsTallied f (record d { objects = o })
same_map-IsTallied f d o v = record {
  addressed = record { fresh = v.addressed.fresh; apart = v.addressed.apart };
  exact = v.exact;
  unused = v.unused;
  once = v.once;
}

HandsComplete-laws : StepLaws HandsComplete
HandsComplete-laws = record {
  socket = λ c q v. record { tallied = v.tallied };
  objects = λ c o v. record { tallied = same_map-IsTallied _ c.connection_data o v.tallied };
  operation = operation-HandsComplete;
  closes = close_and_cleanup-HandsComplete;
  winds = λ c v. record { tallied = v.tallied };
}

pub step-HandsComplete : (e : Event) (c : Connection) → HandsComplete c → HandsComplete (step e c).1
step-HandsComplete e c v = (step-Keeps HandsComplete-laws e).at c v

pub started-HandsComplete :
    (socket : ProtocolSocket) (memory : ℕ → RequestData) → HandsComplete (started socket memory)
unfolding start RecordSocket.start new_connection handed_over
started-HandsComplete socket memory = record {
  tallied = record {
    addressed = new-IsAddressed memory;
    exact = λ i e h. unfold santiago_old.ConnectionData.new_connection_data find in cc;
    unused = λ p h. refl;
    once = λ p. omega arith;
  };
}

reach-HandsComplete : (c d : Connection) → Reach c d → HandsComplete c → HandsComplete d
reach-HandsComplete c d here v = v
reach-HandsComplete c d (next {d = x} r e enabled run) v =
    rw run (step-HandsComplete e x (reach-HandsComplete c x r v))

-- In every history of a connection a request that it holds has been handed to the acceptor exactly
-- once if its params and its input are both at their end, and not at all otherwise.
pub handed_over_when_complete :
    (socket : ProtocolSocket) (memory : ℕ → RequestData) (c : Connection) (i : ℕ) (e : Entry)
    → Reach (started socket memory) c
    → Holds c.connection_data i e
    → handed_over e.request_data c.calls ≡ (if is_complete e then 1 else 0)
handed_over_when_complete socket memory c i e r h =
    (reach-HandsComplete (started socket memory) c r
        (started-HandsComplete socket memory)).tallied.exact
      i e h
