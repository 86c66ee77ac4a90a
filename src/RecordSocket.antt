-- ===== src/RecordSocket.antt =====
-- Fastcgi/RecordSocket.h: replies, and what each record type does.
pub mod Values
pub mod Reply
pub mod Answers
pub mod Decoding
pub mod Received
use santiago_old.Prelude.{
  ℕ, ◌*◌, ◌+◌, ◌%◌, ◌^◌, Bool, true, false, Option, none, some, List, [], ◌∷◌, ltb, ◌==◌,
  if◌then◌else◌, length,
}
use santiago_old.Exec.{
  Exec, Outcome, ok, out_of_bounds, invalid_begin_request_body, fcgi_data, pure, throw, halt, zoom,
  modify, ◌>>=◌, ◌>>◌,
}
use santiago_old.Protocol
use santiago_old.Protocol.{TransceiverEventInfo, socket_closed, connection_wind_down}
use santiago_old.Text.{bytes, text_eq}
use santiago_old.Pairs.{ParamsMap, parse_pairs, write_pair}
use santiago_old.PacketSocket
use santiago_old.PacketSocket.{PacketSocket, write_packet}
use santiago_old.RequestData.{RequestData}

-- The packet socket with the request data whose buffers sendReply is given.
pub record Replying : Type 0 where
  pub packet_socket : PacketSocket
  pub request : RequestData

-- writePacket, whose length argument is a 32-bit unsigned int.
abbrev pub send : ℕ → ℕ → List ℕ → Exec PacketSocket Bool
send request_id type content = write_packet request_id type (length content % 2 ^ 32) content

-- writePacket, then the rest of sendReply unless ec is set.
unfoldable pub send_then : ℕ → ℕ → List ℕ → Exec Replying Bool → Exec Replying Bool
send_then request_id type content rest = do
  ec ←
      zoom (λ s. s.packet_socket) (λ s p. record s { packet_socket = p })
        (send request_id type content)
  if ec then pure true else rest

-- The end of sendReply: both streams are closed, and the request is ended with its status.
unfoldable pub send_end : ℕ → Exec Replying Bool
send_end request_id s =
    send_then request_id Protocol.fcgi_stdout []
      (send_then request_id Protocol.fcgi_stderr [] (
        send_then request_id Protocol.fcgi_end_request
          (Protocol.end_request_body s.request.app_status Protocol.fcgi_request_complete)
          (pure false)))
      s

-- The part of sendReply from the error buffer on; what was written is consumed.
unfoldable pub send_err : ℕ → Exec Replying Bool
send_err request_id s =
    if length s.request.err_buffer == 0
    then send_end request_id s
    else send_then request_id Protocol.fcgi_stderr s.request.err_buffer
        (modify (λ t. record t { request = record t.request { err_buffer = [] } })
          >> send_end request_id)
        s

-- sendReply: the result is whether ec is set.
unfoldable pub send_reply : ℕ → Exec Replying Bool
send_reply request_id s =
    if length s.request.out_buffer == 0
    then send_err request_id s
    else send_then request_id Protocol.fcgi_stdout s.request.out_buffer
        (modify (λ t. record t { request = record t.request { out_buffer = [] } })
          >> send_err request_id)
        s

-- The names that FCGI_GET_VALUES asks for, with the answers.
abbrev pub value_of : List ℕ → Option (List ℕ)
value_of name =
    if text_eq name (bytes "FCGI_MAX_CONNS")
    then some (bytes "100")
    else if text_eq name (bytes "FCGI_MAX_REQS")
    then some (bytes "1000")
    else if text_eq name (bytes "FCGI_MPXS_CONNS")
    then some (bytes "1")
    else none

-- The loop over the pairs of FCGI_GET_VALUES.
unfoldable pub write_values : List ℕ → ParamsMap → List ℕ
write_values output [] = output
write_values output ((name, _) ∷ pairs) =
    write_values (elim (value_of name) [ none ↦ output | some v ↦ write_pair output name v ]) pairs

-- FCGI_BeginRequestBody: the role and the flags.
unfoldable pub begin_request_body : List ℕ → Option (ℕ × ℕ)
begin_request_body (role_b1 ∷ role_b0 ∷ flags ∷ _) = some (role_b1 * 256 + role_b0, flags)
begin_request_body _ = none

-- What a record socket is constructed with: where its owner keeps the packet socket, and the
-- callbacks.
pub record Callbacks (S : Type 0) : Type 0 where
  pub socket : S → PacketSocket
  pub with_socket : S → PacketSocket → S
  pub begin_request : ℕ → Exec S (Unit {0})
  pub abort_request : ℕ → Exec S (Unit {0})
  pub stdin : ℕ → List ℕ → Exec S (Unit {0})
  pub params : ℕ → List ℕ → Exec S (Unit {0})
  pub transceiver_event : TransceiverEventInfo → Exec S (Unit {0})

module _ {S : Type 0} (owner : Callbacks S) where
  open owner use {
    socket, with_socket, begin_request, abort_request, stdin, params, transceiver_event,
  }

  -- start and close
  unfoldable pub start : Exec S (Unit {0})
  start = modify (λ s. with_socket s (PacketSocket.start_async_packet_read (socket s)))

  unfoldable pub close : Exec S (Unit {0})
  close = modify (λ s. with_socket s (PacketSocket.close (socket s)))

  -- writePacket(…, ec); if(ec) _transceiverEventCallbackFn(SOCKET_CLOSED);
  unfoldable pub write_or_report : ℕ → ℕ → List ℕ → Exec S (Unit {0})
  write_or_report request_id type content = do
    ec ← zoom socket with_socket (send request_id type content)
    if ec then transceiver_event socket_closed else pure tt

  unfoldable pub on_get_values : List ℕ → Exec S (Unit {0})
  on_get_values content = do
    pairs ← (λ s. (parse_pairs content [], s))
    write_or_report 0 Protocol.fcgi_get_values_result (write_values [] pairs)

  -- FCGI_BEGIN_REQUEST, once the body is read.
  unfoldable pub on_begin_body : ℕ → Option (ℕ × ℕ) → Exec S (Unit {0})
  on_begin_body request_id none = halt out_of_bounds
  on_begin_body request_id (some (role, flags)) =
      if role == Protocol.fcgi_responder
      then (do
        begin_request request_id
        if flags % 2 == 0 then transceiver_event connection_wind_down else pure tt)
      else write_or_report request_id Protocol.fcgi_end_request
          (Protocol.end_request_body 0 Protocol.fcgi_unknown_role)

  unfoldable pub on_begin_request : ℕ → List ℕ → Exec S (Unit {0})
  on_begin_request request_id content =
      if ltb (length content) Protocol.begin_request_body_size
      then throw invalid_begin_request_body
      else on_begin_body request_id (begin_request_body content)

  -- The header type of the answer is FCGI_REQUEST_COMPLETE, a protocol status.
  unfoldable pub on_abort_request : ℕ → Exec S (Unit {0})
  on_abort_request request_id = do
    write_or_report request_id Protocol.fcgi_request_complete
        (Protocol.end_request_body 1 Protocol.fcgi_request_complete)
    abort_request request_id

  unfoldable pub on_unknown_type : ℕ → Exec S (Unit {0})
  on_unknown_type type =
      write_or_report 0 Protocol.fcgi_unknown_type (Protocol.unknown_type_body type)

  -- handleNewPacket
  unfoldable pub handle_new_packet : Bool → ℕ → ℕ → List ℕ → Exec S (Unit {0})
  handle_new_packet error request_id type content =
      if error
      then (do close; transceiver_event socket_closed)
      else if type == Protocol.fcgi_get_values
      then on_get_values content
      else if type == Protocol.fcgi_begin_request
      then on_begin_request request_id content
      else if type == Protocol.fcgi_abort_request
      then on_abort_request request_id
      else if type == Protocol.fcgi_params
      then params request_id content
      else if type == Protocol.fcgi_stdin
      then stdin request_id content
      else if type == Protocol.fcgi_data_type
      then throw fcgi_data
      else on_unknown_type type
