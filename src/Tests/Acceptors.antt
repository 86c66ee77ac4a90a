-- ===== src/Tests/Acceptors.antt =====
-- Acceptors.
use santiago_old.Prelude.{◌≡◌, refl, false, some, arith}
use santiago_old.Exec.{ok}
use santiago_old.OrderedMap.{nat_key, find, assign, place}
use santiago_old.Connection.{step, reply_posted}
use santiago_old.Acceptor.{
  Acceptor, AcceptorEvent, accept_done, connection_event, new_acceptor, acceptor_step,
  handle_accept, accept_connection,
}
use santiago_old.Acceptor.Tasks.{AcceptorInv}
use santiago_old.Acceptor.Histories.{
  AcceptorReach, at_start, and_then, IsPossible, own_outcome, reach-AcceptorInv, asserts_hold,
}
use santiago_old.Tests.{quiet_socket, memory}
use santiago_old.Tests.Connections.{begun}

-- An acceptor with one connection.
abbrev pub accepting : AcceptorEvent
accepting = accept_done false quiet_socket memory

abbrev pub with_one : Acceptor
with_one = (acceptor_step accepting new_acceptor).1

pub first_id : IsPossible accepting new_acceptor
unfolding new_acceptor
first_id = omega arith

pub accept_returns : (acceptor_step accepting new_acceptor).0 ≡ ok tt
unfolding acceptor_step handle_accept new_acceptor find
accept_returns = refl

abbrev pub one_accept : AcceptorReach new_acceptor with_one
one_accept = and_then at_start accepting first_id accept_returns refl

reach-AcceptorInv_example : AcceptorInv with_one
reach-AcceptorInv_example = reach-AcceptorInv with_one one_accept

pub begun_found : find 0 with_one.active_connections ≡ some begun
unfolding acceptor_step handle_accept accept_connection new_acceptor find assign place
begun_found = refl

post_returns : own_outcome (connection_event 0 (reply_posted 7 0)) with_one ≡ ok tt
unfolding acceptor_step handle_accept accept_connection new_acceptor find assign place step
post_returns = refl

asserts_hold_example : (acceptor_step (connection_event 0 (reply_posted 7 0)) with_one).0 ≡ ok tt
asserts_hold_example =
    asserts_hold with_one (connection_event 0 (reply_posted 7 0)) one_accept
      (begun, begun_found, tt) post_returns
