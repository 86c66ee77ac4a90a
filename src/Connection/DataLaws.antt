-- ===== src/Connection/DataLaws.antt =====
-- Fastcgi/Connection.h: what every operation on the data keeps is kept by every handler.
use santiago_old.Prelude.{ℕ, Bool, true, false, if◌then◌else◌}
use santiago_old.Exec.{Outcome, ok, thrown, halted, continue}
use santiago_old.RequestData.{RequestData}
use santiago_old.ConnectionData
use santiago_old.ConnectionData.{ConnectionData, Notice, quiet, request_ready, became_empty}
use santiago_old.ConnectionData.Changes.{Change, perform, perform-Change}
use santiago_old.Connection.{
  Connection, is_closing, close_and_cleanup, handle_on_empty, handle_request_ready, on_notice,
  on_data,
}
use santiago_old.Connection.Packets.{Keeps}
use santiago_old.Connection.Steps.{StepLaws}

-- A predicate of the data that every change and the clear-up keep.
pub record DataLaws (Q : ConnectionData → Type 0) : Type 0 where
  pub change : {d d' : ConnectionData} {n : Notice} → Change d d' n → Q d → Q d'
  pub clear : (d : ConnectionData) → Q d → Q (ConnectionData.clear d)
  pub objects : (d : ConnectionData) (o : ℕ → RequestData) → Q d → Q (record d { objects = o })

module _ {Q : ConnectionData → Type 0} (laws : DataLaws Q) where
  abbrev OnData : Connection → Type 0
  OnData c = Q c.connection_data

  closes-OnData : Keeps (OnData) close_and_cleanup
  unfolding close_and_cleanup
  closes-OnData = record { at = λ c v. laws.clear c.connection_data v }

  notice-OnData :
      (r : Outcome Notice) (c : Connection) → OnData c → OnData (continue r on_notice c).1
  unfolding on_notice handle_request_ready handle_on_empty
  notice-OnData (ok quiet) c v = v
  notice-OnData (ok (request_ready i p)) c v = v
  notice-OnData (ok became_empty) c v = emptied (is_closing c.state)
    where
      emptied : (b : Bool) → OnData (if b then close_and_cleanup c else (ok tt, c)).1
      emptied true = closes-OnData.at c v
      emptied false = v
  notice-OnData (thrown e) c v = v
  notice-OnData (halted h) c v = v

  pub data_laws : StepLaws (OnData)
  data_laws = record {
    socket = λ c p v. v;
    objects = λ c o v. laws.objects c.connection_data o v;
    operation = λ op. record {
      at = λ c v.
          unfold on_data in
          notice-OnData (perform op c.connection_data).0
            (record c { connection_data = (perform op c.connection_data).1 })
            (laws.change (perform-Change op c.connection_data) v);
    };
    closes = closes-OnData;
    winds = λ c v. v;
  }
