-- ===== src/Protocol.antt =====
-- fastcgi_devkit/fastcgi.h and Fastcgi/Common.h: the constants and the record layouts. A byte is a
-- number below 256, and a C struct of unsigned chars is the list of its bytes.
pub mod Layout
use santiago_old.Prelude.{ℕ, zero, suc, ◌+◌, ◌*◌, ◌/◌, ◌%◌, ◌^◌, ◌<◌, List, [], ◌∷◌, replicate}

-- The socket events that a record socket reports to its connection.
pub data TransceiverEventInfo : Type 0 where
  socket_closed connection_wind_down : TransceiverEventInfo

abbrev pub fcgi_max_length : ℕ
fcgi_max_length = 0xffff

abbrev pub fcgi_header_len : ℕ
fcgi_header_len = 8

abbrev pub fcgi_version_1 : ℕ
fcgi_version_1 = 1

abbrev pub fcgi_begin_request : ℕ
fcgi_begin_request = 1

abbrev pub fcgi_abort_request : ℕ
fcgi_abort_request = 2

abbrev pub fcgi_end_request : ℕ
fcgi_end_request = 3

abbrev pub fcgi_params : ℕ
fcgi_params = 4

abbrev pub fcgi_stdin : ℕ
fcgi_stdin = 5

abbrev pub fcgi_stdout : ℕ
fcgi_stdout = 6

abbrev pub fcgi_stderr : ℕ
fcgi_stderr = 7

abbrev pub fcgi_data_type : ℕ
fcgi_data_type = 8

abbrev pub fcgi_get_values : ℕ
fcgi_get_values = 9

abbrev pub fcgi_get_values_result : ℕ
fcgi_get_values_result = 10

abbrev pub fcgi_unknown_type : ℕ
fcgi_unknown_type = 11

abbrev pub fcgi_keep_conn : ℕ
fcgi_keep_conn = 1

abbrev pub fcgi_responder : ℕ
fcgi_responder = 1

-- The values of `protocolStatus`.
abbrev pub fcgi_request_complete : ℕ
fcgi_request_complete = 0

abbrev pub fcgi_unknown_role : ℕ
fcgi_unknown_role = 3

-- FCGI_Header
pub record Header : Type 0 where
  pub version : ℕ
  pub type : ℕ
  pub request_id_b1 : ℕ
  pub request_id_b0 : ℕ
  pub content_length_b1 : ℕ
  pub content_length_b0 : ℕ
  pub padding_length : ℕ
  pub reserved : ℕ

-- The bytes of a header, in the order of the struct's members.
unfoldable pub header_bytes : Header → List ℕ
header_bytes h =
    h.version ∷ h.type ∷ h.request_id_b1 ∷ h.request_id_b0 ∷ h.content_length_b1
    ∷ h.content_length_b0 ∷ h.padding_length ∷ h.reserved ∷ []

-- FCGI_EndRequestBody with its reserved bytes zeroed: the status is an int, as its bit pattern.
unfoldable pub end_request_body : ℕ → ℕ → List ℕ
end_request_body app_status protocol_status =
    (app_status / 2 ^ 24 % 256)
    ∷ (app_status / 2 ^ 16 % 256)
    ∷ (app_status / 2 ^ 8 % 256)
    ∷ (app_status % 256)
    ∷ protocol_status
    ∷ replicate 3 0

-- FCGI_UnknownTypeBody with its reserved bytes zeroed.
unfoldable pub unknown_type_body : ℕ → List ℕ
unknown_type_body type = type ∷ replicate 7 0

-- sizeof(FCGI_BeginRequestBody)
abbrev pub begin_request_body_size : ℕ
begin_request_body_size = 8
