-- ===== src/Strand.antt =====
-- The tasks that a connection posts in its own strand (boost::asio::strand::post), oldest first.
use santiago_old.Prelude.{ℕ, List}

pub data Task : Type 0 where
  -- PacketSocket::flushProtocolSocket
  flush_protocol_socket_task : Task
  -- Connection::commitReplyImpl, with the request id and the object that the RequestDataPtr keeps
  commit_reply_task : ℕ → ℕ → Task

abbrev pub Strand : Type 0
Strand = List Task
