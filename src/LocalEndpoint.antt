-- ===== src/LocalEndpoint.antt =====
-- LocalEndpoint.h: what the acceptor listens on, a port of every IPv4 address or a path in the file
-- system.
use santiago_old.Prelude.{ℕ, ◌%◌, ◌^◌, List}

-- boost::asio::ip::tcp::endpoint and boost::asio::local::stream_protocol::endpoint
pub data AsioEndpoint : Type 0 where
  tcp_v4 : ℕ → AsioEndpoint
  local_path : List ℕ → AsioEndpoint

pub record LocalEndpoint : Type 0 where
  pub asio_endpoint : AsioEndpoint

-- The constructors. The port is an unsigned short.
unfoldable pub tcp_endpoint : ℕ → LocalEndpoint
tcp_endpoint port_no = record { asio_endpoint = tcp_v4 (port_no % 2 ^ 16) }

unfoldable pub local_endpoint : List ℕ → LocalEndpoint
local_endpoint path = record { asio_endpoint = local_path path }

-- getAsioEndpoint
unfoldable pub get_asio_endpoint : LocalEndpoint → AsioEndpoint
get_asio_endpoint e = e.asio_endpoint
