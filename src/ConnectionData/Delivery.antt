-- ===== src/ConnectionData/Delivery.antt =====
-- Fastcgi/ConnectionData.h: a request from its begin to its callback.
use santiago_old.Prelude.{ℕ, ap, ◌≡◌, ◌∙◌, refl, none, List, [], All}
use santiago_old.Exec.{ok}
use santiago_old.OrderedMap.{nat_key, find, assign, find-assign}
use santiago_old.Pairs.{ParamsMap, parse_pairs}
use santiago_old.Pairs.Bounds.{parse_pairs-total}
use santiago_old.RequestData.{RequestData, new_request_data, parse_fcgi_params}
use santiago_old.ConnectionData.{
  ConnectionData, Entry, quiet, request_ready, new_connection_data, has_flag, params_completed,
  in_completed, flagged, update, handle_begin_request, handle_stdin, handle_params, complete_params,
  set_flag, set_object, check_for_request_ready,
}
use santiago_old.ConnectionData.Changes.{
  Op, begins, stdin_chunk, params_chunk, perform, perform-Change, notice_of,
}
use santiago_old.ConnectionData.Addresses.{
  Holds, IsAddressed, Change-IsAddressed, run, run-IsAddressed, new-IsAddressed,
}
use santiago_old.ConnectionData.Chunks.{Feeds, stdin_of, params_of, fed, ==-self}
use santiago_old.ConnectionData.Assembly.{run-Fed}

module _ (i : ℕ) (d : ConnectionData) where
  abbrev pub new_entry : Entry
  new_entry = record { request_state = 0; request_data = d.next_object }

  pub begun_map : find i d.request_map ≡ none → Holds (perform (begins i) d).1 i new_entry
  unfolding perform handle_begin_request
  begun_map missing =
      rw (missing, handle_begin_request)
        (find-assign i i new_entry d.request_map ∙ rw (==-self i) refl)

  begun_object :
      find i d.request_map ≡ none
      → (perform (begins i) d).1.objects d.next_object ≡ new_request_data (d.objects d.next_object)
  unfolding perform handle_begin_request
  begun_object missing = rw (missing, handle_begin_request, ==-self d.next_object) refl

-- The entry of a request whose streams are both at their end.
abbrev pub ended_entry : ℕ → Entry
ended_entry p =
    flagged in_completed (flagged params_completed (record { request_state = 0; request_data = p }))

-- The end of the params of a request whose streams are open.
module _ (i p : ℕ) (d : ConnectionData) (r : ParamsMap) where
  abbrev fresh_entry : Entry
  fresh_entry = record { request_state = 0; request_data = p }

  abbrev half_entry : Entry
  half_entry = flagged params_completed fresh_entry

  abbrev parsed : RequestData
  parsed = record (d.objects p) { params_map = r }

  abbrev params_ended : ConnectionData
  params_ended = record d {
    request_map = assign i half_entry d.request_map;
    objects = update d.objects p parsed;
  }

  params_end :
      Holds d i fresh_entry
      → parse_pairs (d.objects p).params_buffer (d.objects p).params_map ≡ ok r
      → perform (params_chunk i []) d ≡ (ok quiet, params_ended)
  unfolding perform handle_params complete_params set_flag set_object has_flag parse_fcgi_params
      check_for_request_ready
  params_end held parse =
      rw (held, handle_params) (rw (parse, parse_fcgi_params, complete_params) refl)

  stdin_end_notice : notice_of (perform (stdin_chunk i []) params_ended).0 ≡ request_ready i p
  unfolding perform handle_stdin check_for_request_ready has_flag set_flag
  stdin_end_notice = rw (find-assign i i half_entry d.request_map, ==-self i, handle_stdin) refl

  stdin_end_held : Holds (perform (stdin_chunk i []) params_ended).1 i (ended_entry p)
  unfolding perform handle_stdin has_flag set_flag
  stdin_end_held =
      rw (find-assign i i half_entry d.request_map, ==-self i, handle_stdin)
        (find-assign i i (ended_entry p) (assign i half_entry d.request_map) ∙ rw (==-self i) refl)

  stdin_end_object : (perform (stdin_chunk i []) params_ended).1.objects p ≡ parsed
  unfolding perform handle_stdin has_flag set_flag
  stdin_end_object =
      rw (find-assign i i half_entry d.request_map, ==-self i, handle_stdin) (rw (==-self p) refl)

-- The data after the begin of a request and further operations, and after the end of its params.
abbrev pub open_request : ℕ → List Op → ConnectionData → ConnectionData
open_request i ops d = run ops (perform (begins i) d).1

abbrev pub read_params : ℕ → List Op → ConnectionData → ConnectionData
read_params i ops d = (perform (params_chunk i []) (open_request i ops d)).1

-- What the empty chunks at the end of both streams come to: the callback is made with the object of
-- the request, whose entry has both streams at their end, and which has the params that the joined params chunks parse to, and the joined input.
pub record Delivers (i : ℕ) (ops : List Op) (d : ConnectionData) : Type 0 where
  pub params : ParamsMap
  pub parses : parse_pairs (params_of i ops) [] ≡ ok params
  pub calls :
      notice_of (perform (stdin_chunk i []) (read_params i ops d)).0 ≡ request_ready i d.next_object
  pub held :
      Holds (perform (stdin_chunk i []) (read_params i ops d)).1 i (ended_entry d.next_object)
  pub object :
      (perform (stdin_chunk i []) (read_params i ops d)).1.objects d.next_object
      ≡ record (fed
          (new_request_data (d.objects d.next_object))
          (params_of i ops)
          (stdin_of i ops)) { params_map = params }

params_ends :
    (i : ℕ) (ops : List Op) (d : ConnectionData) (r : ParamsMap)
    → IsAddressed d
    → find i d.request_map ≡ none
    → All (Feeds i) ops
    → parse_pairs (params_of i ops) [] ≡ ok r
    → perform (params_chunk i []) (open_request i ops d)
      ≡ (ok quiet, params_ended i d.next_object (open_request i ops d) r)
params_ends i ops d r v missing feeds parse =
    let all =
      run-Fed ops (perform (begins i) d).1 i (new_entry i d)
        (Change-IsAddressed (perform-Change (begins i) d) v) (begun_map i d missing) refl feeds in
    let d1 = open_request i ops d in
    let object : d1.objects d.next_object
        ≡ fed (new_request_data (d.objects d.next_object)) (params_of i ops) (stdin_of i ops) =
      all.object ∙ rw (begun_object i d missing) refl in
    params_end i d.next_object d1 r all.held (rw object (unfold new_request_data in parse))

-- The empty chunk at the end of the params makes no callback.
pub params_end_quiet :
    (i : ℕ) (ops : List Op) (d : ConnectionData)
    → IsAddressed d
    → find i d.request_map ≡ none
    → All (Feeds i) ops
    → (perform (params_chunk i []) (open_request i ops d)).0 ≡ ok quiet
params_end_quiet i ops d v missing feeds =
    let (r, parse) = parse_pairs-total (params_of i ops) [] in
    ap (λ x. x.0) (params_ends i ops d r v missing feeds parse)

pub opened-Delivers :
    (i : ℕ) (ops : List Op) (d : ConnectionData)
    → IsAddressed d
    → find i d.request_map ≡ none
    → All (Feeds i) ops
    → Delivers i ops d
opened-Delivers i ops d v missing feeds =
    let (r, parse) = parse_pairs-total (params_of i ops) [] in
    let p = d.next_object in
    let d1 = open_request i ops d in
    let all =
      run-Fed ops (perform (begins i) d).1 i (new_entry i d)
        (Change-IsAddressed (perform-Change (begins i) d) v) (begun_map i d missing) refl feeds in
    let object : d1.objects p
        ≡ fed (new_request_data (d.objects p)) (params_of i ops) (stdin_of i ops) =
      all.object ∙ rw (begun_object i d missing) refl in
    let ends : read_params i ops d ≡ params_ended i p d1 r =
      ap (λ x. x.1) (params_ends i ops d r v missing feeds parse) in
    record {
      params = r;
      parses = parse;
      held = rw ends (stdin_end_held i p d1 r);
      calls = rw ends (stdin_end_notice i p d1 r);
      object = rw ends (stdin_end_object i p d1 r ∙ rw object refl);
    }

-- A request is begun under an id that is not in use, and is sent chunks of params and of input, in
-- any order and between any operations on other requests. Then the empty chunks that end its params
-- and its input make the ready callback with its object, and the request is in the map with both
-- streams at their end; and the object has the params that ParsePairs, which narrows their size to
-- 32 bits, reads from the joined params chunks, and the joined input chunks.
pub request-Delivers :
    (before ops : List Op) (memory : ℕ → RequestData) (i : ℕ)
    → find i (run before (new_connection_data memory)).request_map ≡ none
    → All (Feeds i) ops
    → Delivers i ops (run before (new_connection_data memory))
request-Delivers before ops memory i missing feeds =
    opened-Delivers i ops (run before (new_connection_data memory))
      (run-IsAddressed before (new_connection_data memory) (new-IsAddressed memory)) missing feeds
