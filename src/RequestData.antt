-- ===== src/RequestData.antt =====
-- Fastcgi/RequestData.h. The streams _out and _err write behind _outBuffer and _errBuffer.
use santiago_old.Prelude.{ℕ, List, [], ◌++◌}
use santiago_old.Exec.{Outcome, ok, thrown, halted}
use santiago_old.Pairs.{ParamsMap, parse_pairs}

pub record RequestData : Type 0 where
  pub params_map : ParamsMap
  pub params_buffer : List ℕ
  pub in_buffer : List ℕ
  pub out_buffer : List ℕ
  pub err_buffer : List ℕ
  -- an int, as the bit pattern of its 32 bits
  pub app_status : ℕ

-- The constructor: _appStatus is not in its initializer list, so it stays what the memory held.
unfoldable pub new_request_data : RequestData → RequestData
new_request_data memory = record {
  params_map = [];
  params_buffer = [];
  in_buffer = [];
  out_buffer = [];
  err_buffer = [];
  app_status = memory.app_status;
}

-- parseFCGIParams
unfoldable pub parse_fcgi_params : RequestData → Outcome RequestData
parse_fcgi_params d = elim (parse_pairs d.params_buffer d.params_map) [
  | ok m ↦ ok (record d { params_map = m })
  | thrown e ↦ thrown e
  | halted h ↦ halted h
]

-- What the streams do with text that is written to them.
unfoldable pub write_out : List ℕ → RequestData → RequestData
write_out text d = record d { out_buffer = d.out_buffer ++ text }

unfoldable pub write_err : List ℕ → RequestData → RequestData
write_err text d = record d { err_buffer = d.err_buffer ++ text }
