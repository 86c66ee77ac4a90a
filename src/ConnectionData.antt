-- ===== src/ConnectionData.antt =====
-- Fastcgi/ConnectionData.h: the requests of a connection that are alive. A RequestDataPtr is an
-- address of `objects`. Each operation makes at most one callback, as the last thing that it does:
-- an operation returns which, and Connection makes the call.
pub mod Changes
pub mod Addresses
pub mod Filled
pub mod Readiness
pub mod Tally
pub mod Untouched
pub mod Apart
pub mod Chunks
pub mod Assembly
pub mod Delivery
pub mod Phases
pub mod Ends
use santiago_old.Prelude.{
  ℕ, suc, ◌≡◌, Bool, true, false, not, ◌&&◌, Option, none, some, List, [], ◌∷◌, ◌++◌, ◌==◌,
  if◌then◌else◌, length,
}
use santiago_old.Exec.{
  Exec, Outcome, ok, thrown, halted, assertion_failed, request_id_exists, abort_request_id_missing,
  stdin_request_id_missing, stdin_closed, params_request_id_missing, params_closed,
  cleanup_request_id_missing,
}
use santiago_old.OrderedMap.{OrderedMap, nat_key, find, assign, erase}
use santiago_old.RequestData.{RequestData, new_request_data, parse_fcgi_params}
use Prim.Native.Nat.{bit_and, bit_or}

abbrev pub in_completed : ℕ
in_completed = 1

abbrev pub params_completed : ℕ
params_completed = 2

-- std::pair<RequestState,RequestDataPtr>
pub record Entry : Type 0 where
  pub request_state : ℕ
  pub request_data : ℕ

abbrev pub RequestMap : Type 0
RequestMap = OrderedMap ℕ Entry

-- The map, and the RequestData objects by their addresses: `new` takes `next_object`.
pub record ConnectionData : Type 0 where
  pub request_map : RequestMap
  pub objects : ℕ → RequestData
  pub next_object : ℕ

-- The callback that an operation ends with.
pub data Notice : Type 0 where
  quiet : Notice
  request_ready : ℕ → ℕ → Notice
  became_empty : Notice

abbrev pub update : (ℕ → RequestData) → ℕ → RequestData → ℕ → RequestData
update objects p d q = if p == q then d else objects q

-- (state & flag) != 0
unfoldable pub has_flag : ℕ → ℕ → Bool
has_flag request_state flag = not (bit_and request_state flag == 0)

-- The constructor.
unfoldable pub new_connection_data : (ℕ → RequestData) → ConnectionData
new_connection_data memory = record { request_map = []; objects = memory; next_object = 0 }

-- checkForEmptyRequestMap: size() == 0
unfoldable pub check_for_empty_request_map : ConnectionData → Notice
check_for_empty_request_map d = if length d.request_map == 0 then became_empty else quiet

-- checkForRequestReady, at an entry of the map
unfoldable pub check_for_request_ready : ℕ → Entry → Notice
check_for_request_ready request_id e =
    if has_flag e.request_state params_completed && has_flag e.request_state in_completed
    then request_ready request_id e.request_data
    else quiet

-- handleBeginRequest
unfoldable pub handle_begin_request : ℕ → Exec ConnectionData Notice
handle_begin_request request_id d = elim (find request_id d.request_map) [
  | some _ ↦ (thrown request_id_exists, d)
  | none ↦ (
    ok quiet,
    record {
      request_map =
          assign request_id (record { request_state = 0; request_data = d.next_object })
            d.request_map;
      objects = update d.objects d.next_object (new_request_data (d.objects d.next_object));
      next_object = suc d.next_object;
    },
  )
]

-- handleAbortRequest
unfoldable pub handle_abort_request : ℕ → Exec ConnectionData Notice
handle_abort_request request_id d = elim (find request_id d.request_map) [
  | none ↦ (thrown abort_request_id_missing, d)
  | some _ ↦
      let d' = record d { request_map = erase request_id d.request_map } in
      (ok (check_for_empty_request_map d'), d')
]

-- iter->second.first |= flag
unfoldable pub set_flag : ℕ → ℕ → Entry → ConnectionData → ConnectionData
set_flag request_id flag e d = record d {
  request_map =
      assign request_id (record e { request_state = bit_or e.request_state flag }) d.request_map;
}

-- The entry of a request after its flag is set.
abbrev pub flagged : ℕ → Entry → Entry
flagged flag e = record e { request_state = bit_or e.request_state flag }

-- Changes the object behind an entry.
unfoldable pub set_object : Entry → RequestData → ConnectionData → ConnectionData
set_object e r d = record d { objects = update d.objects e.request_data r }

-- handleStdin
unfoldable pub handle_stdin : ℕ → List ℕ → Exec ConnectionData Notice
handle_stdin request_id in_buffer d = elim (find request_id d.request_map) [
  | none ↦ (thrown stdin_request_id_missing, d)
  | some e ↦
      if has_flag e.request_state in_completed
      then (thrown stdin_closed, d)
      else if length in_buffer == 0
      then (
        ok (check_for_request_ready request_id (flagged in_completed e)),
        set_flag request_id in_completed e d,
      )
      else (
        ok (check_for_request_ready request_id e),
        (let r = d.objects e.request_data in
            set_object e (record r { in_buffer = r.in_buffer ++ in_buffer }) d),
      )
]

-- The end of the params: they are parsed, and the flag is set.
unfoldable pub complete_params : ℕ → Entry → Exec ConnectionData Notice
complete_params request_id e d = elim (parse_fcgi_params (d.objects e.request_data)) [
  | ok r ↦ (
    ok (check_for_request_ready request_id (flagged params_completed e)),
    set_flag request_id params_completed e (set_object e r d),
  )
  | thrown x ↦ (thrown x, d)
  | halted h ↦ (halted h, d)
]

-- handleParams
unfoldable pub handle_params : ℕ → List ℕ → Exec ConnectionData Notice
handle_params request_id in_buffer d = elim (find request_id d.request_map) [
  | none ↦ (thrown params_request_id_missing, d)
  | some e ↦
      if has_flag e.request_state params_completed
      then (thrown params_closed, d)
      else if length in_buffer == 0
      then complete_params request_id e d
      else (
        ok (check_for_request_ready request_id e),
        (let r = d.objects e.request_data in
            set_object e (record r { params_buffer = r.params_buffer ++ in_buffer }) d),
      )
]

-- cleanupRequest; both halves of the source's assertion test IN_COMPLETED
unfoldable pub cleanup_request : ℕ → Exec ConnectionData Notice
cleanup_request request_id d = elim (find request_id d.request_map) [
  | none ↦ (thrown cleanup_request_id_missing, d)
  | some e ↦
      if has_flag e.request_state in_completed && has_flag e.request_state in_completed
      then (let d' = record d { request_map = erase request_id d.request_map } in
          (ok (check_for_empty_request_map d'), d'))
      else (halted assertion_failed, d)
]

-- clear
unfoldable pub clear : ConnectionData → ConnectionData
clear d = record d { request_map = [] }

-- isValidRequest
unfoldable pub is_valid_request : ℕ → ℕ → ConnectionData → Bool
is_valid_request request_id request_data d = elim (find request_id d.request_map) [
  | none ↦ false
  | some e ↦ e.request_data == request_data
]
