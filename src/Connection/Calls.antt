-- ===== src/Connection/Calls.antt =====
-- Fastcgi/Connection.h: the calls into the acceptor that an event adds.
use santiago_old.Prelude.{
  ◌≡◌, ◌∙◌, refl, sym, ap, List, [], ◌∷◌, ◌++◌, append-nil, append_assoc, Bool, true, false,
  if◌then◌else◌,
}
use santiago_old.Exec.{Exec, ok}
use santiago_old.ConnectionData.{ConnectionData, Notice, quiet, request_ready, became_empty}
use santiago_old.Connection.{
  Connection, is_closing, AcceptorCall, call, close_and_cleanup, handle_on_empty,
  handle_request_ready, on_notice, on_data, Event, step,
}
use santiago_old.ConnectionData.Changes.{perform}
use santiago_old.Connection.Steps.{StepLaws, step-Keeps}
use santiago_old.Connection.Packets.{Keeps, continue-Keeps, nothing-Keeps}

-- The calls start with these.
pub record Extends (base : List AcceptorCall) (c : Connection) : Type 0 where
  pub added : List AcceptorCall
  pub starts : c.calls ≡ base ++ added

module _ (base : List AcceptorCall) where
  call-Extends : (a : AcceptorCall) (c : Connection) → Extends base c → Extends base (call a c)
  call-Extends a c v = record {
    added = v.added ++ (a ∷ []);
    starts = ap (λ x. x ++ (a ∷ [])) v.starts ∙ append_assoc base v.added (a ∷ []);
  }

  same-Extends : (c d : Connection) → d.calls ≡ c.calls → Extends base c → Extends base d
  same-Extends c d e v = record { added = v.added; starts = e ∙ v.starts }

  close_and_cleanup-Extends : Keeps (Extends base) close_and_cleanup
  unfolding close_and_cleanup
  close_and_cleanup-Extends = record { at = λ c v. call-Extends _ _ (same-Extends c _ refl v) }

  notice-Extends : (n : Notice) → Keeps (Extends base) (on_notice n)
  unfolding on_notice handle_request_ready
  notice-Extends quiet = nothing-Keeps (ok tt)
  notice-Extends (request_ready i p) = record { at = λ c v. call-Extends _ c v }
  notice-Extends became_empty = record {
    at = λ c v. unfold handle_on_empty in emptied (is_closing c.state) c v;
  }
    where
      emptied :
          (b : Bool) (c : Connection)
          → Extends base c
          → Extends base (if b then close_and_cleanup c else (ok tt, c)).1
      emptied true c v = close_and_cleanup-Extends.at c v
      emptied false c v = v

  on_data-Extends : (m : Exec ConnectionData Notice) → Keeps (Extends base) (on_data m)
  unfolding on_data
  on_data-Extends m = record {
    at = λ c v.
        continue-Keeps on_notice notice-Extends (m c.connection_data).0
          (record c { connection_data = (m c.connection_data).1 }) (same-Extends c _ refl v);
  }

  Extends-laws : StepLaws (Extends base)
  Extends-laws = record {
    socket = λ c p v. same-Extends c _ refl v;
    objects = λ c o v. same-Extends c _ refl v;
    operation = λ op. on_data-Extends (perform op);
    closes = close_and_cleanup-Extends;
    winds = λ c v. same-Extends c _ refl v;
  }

-- The calls that an event adds.
pub step_calls : (e : Event) (c : Connection) → Extends c.calls (step e c).1
step_calls e c =
    (step-Keeps (Extends-laws c.calls) e).at c
      (record { added = []; starts = sym (append-nil c.calls) })
