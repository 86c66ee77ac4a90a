-- ===== src/Protocol/Layout.antt =====
-- Sizes of the fastcgi.h structs.
use santiago_old.Prelude.{ℕ, ◌≡◌, refl, length}
use santiago_old.Protocol.{Header, header_bytes, end_request_body, unknown_type_body}

pub length-header_bytes : (h : Header) → length (header_bytes h) ≡ 8
unfolding header_bytes
length-header_bytes h = refl

pub length-end_request_body : (a p : ℕ) → length (end_request_body a p) ≡ 8
unfolding end_request_body
length-end_request_body a p = refl

pub length-unknown_type_body : (t : ℕ) → length (unknown_type_body t) ≡ 8
unfolding unknown_type_body
length-unknown_type_body t = refl
