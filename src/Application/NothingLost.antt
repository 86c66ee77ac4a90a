-- ===== src/Application/NothingLost.antt =====
-- Server/Server.h over Fastcgi/Acceptor.h: the histories of a server with its acceptor.
use santiago_old.Prelude.{ℕ, ◌≡◌, refl, inl, inr, true, some, List, [], ◌∷◌, arith}
use santiago_old.OrderedMap.{nat_key, find}
use santiago_old.ConnectionData.{Entry}
use santiago_old.ConnectionData.Changes.{is_complete}
use santiago_old.ConnectionData.Addresses.{Holds}
use santiago_old.Connection.{Connection}
use santiago_old.Request.{Request, RequestId}
use santiago_old.RequestHandler.{RequestHandler}
use santiago_old.Acceptor.{connection_event, new_acceptor}
use santiago_old.Acceptor.Histories.{own_returns, own_outcome, new_acceptor-AcceptorInv}
use santiago_old.Server
use santiago_old.Server.{
  start, run_threads, stop, stop_io_service, join_threads, run_deletion, started_by_user,
  stopped_by_user, server_step, new_server, run_oldest_deletion, handle_request_delete_impl,
}
use santiago_old.Server.Handlers.{ServerInv}
use santiago_old.Server.Histories.{server_step-ServerInv, new_server-ServerInv}
use santiago_old.Application.{
  Application, new_application, ApplicationEvent, accept_finished, connection_happens, task_runs,
  deletion_runs, request_used, request_dropped, server_starts, server_stops, application_step,
  on_acceptor, on_server, CanHappen, LivesOn, ApplicationReach, at_start, and_then,
}
use santiago_old.Application.Tended.{IsTended, ApplicationInv}
use santiago_old.Application.Uses.{use_request-ApplicationInv}
use santiago_old.Application.Drops.{destroy_request-ApplicationInv}
use santiago_old.Application.Tasks.{run_task-ApplicationInv}
use santiago_old.Application.Connections.{
  connection_happens-ApplicationInv, accept_finished-ApplicationInv,
}

-- What the server does by itself leaves the requests alone.
server_only-ApplicationInv :
    (t : Server.Server) (s : Application)
    → t.live ≡ s.server.live
    → ServerInv t
    → ApplicationInv s
    → ApplicationInv (record s { server = t })
server_only-ApplicationInv t s same w v = record {
  acceptor = v.acceptor;
  server = w;
  nothing_lost = λ i r c x found holds full. elim (v.nothing_lost i r c x found holds full) [
    | inl m ↦ inl m
    | inr (inl (alive, e)) ↦ inr (inl (rw same alive, e))
    | inr (inr m) ↦ inr (inr m)
  ];
}

run_oldest_deletion-live :
    (ids : List RequestId) (t : Server.Server) → (run_oldest_deletion ids t).1.live ≡ t.live
unfolding run_oldest_deletion handle_request_delete_impl
run_oldest_deletion-live [] t = refl
run_oldest_deletion-live (k ∷ ids) t = ground arith

start-live : (t : Server.Server) → (start t).1.live ≡ t.live
unfolding start run_threads
start-live t = ground arith

stop-live : (t : Server.Server) → (stop t).1.live ≡ t.live
unfolding stop stop_io_service join_threads
stop-live t = ground arith

application_step-ApplicationInv :
    (e : ApplicationEvent) (s : Application)
    → CanHappen e s
    → LivesOn e (application_step e s).0
    → ApplicationInv s
    → ApplicationInv (application_step e s).1
unfolding application_step on_acceptor on_server
application_step-ApplicationInv (accept_finished error socket memory) s bound returns v =
    accept_finished-ApplicationInv error socket memory s bound v
application_step-ApplicationInv (connection_happens i e) s (c, found, enabled) returns v =
    connection_happens-ApplicationInv i e c s found
      (rw (found, own_outcome) at
        (own_returns (connection_event i e) s.acceptor (c, found, enabled) returns))
      v
application_step-ApplicationInv (task_runs route) s h returns v =
    run_task-ApplicationInv route s.acceptor.strand s refl returns v
application_step-ApplicationInv deletion_runs s h returns v =
    server_only-ApplicationInv _ s
      (unfold server_step in run_oldest_deletion-live s.server.acceptor_strand s.server)
      (server_step-ServerInv run_deletion s.server tt v.server) v
application_step-ApplicationInv (request_used u k) s alive returns v =
    use_request-ApplicationInv u k s v
application_step-ApplicationInv (request_dropped k) s alive returns v =
    destroy_request-ApplicationInv k s alive v
application_step-ApplicationInv server_starts s h returns v =
    server_only-ApplicationInv _ s (start-live s.server)
      (unfold server_step in server_step-ServerInv started_by_user s.server tt v.server) v
application_step-ApplicationInv server_stops s h returns v =
    server_only-ApplicationInv _ s (stop-live s.server)
      (unfold server_step in server_step-ServerInv stopped_by_user s.server tt v.server) v

reach-ApplicationInv :
    (handlers : ℕ → RequestHandler) (requests : RequestId → Request) (s : Application)
    → ApplicationReach (new_application handlers requests) s
    → ApplicationInv s
unfolding new_application new_acceptor find
reach-ApplicationInv handlers requests s at_start = record {
  acceptor = new_acceptor-AcceptorInv;
  server = new_server-ServerInv handlers;
  nothing_lost = λ i r c x found holds full. absurd (cc found);
}
reach-ApplicationInv handlers requests s (and_then {t} h e possible lives run) = rw run (
    application_step-ApplicationInv e t possible lives (reach-ApplicationInv handlers requests t h))

-- No request is lost. In every history of a server with its acceptor in which the process lives on
-- and fewer than 2 ^ 32 connections are accepted, whatever the peers send and whatever the user does:
-- a request of a connection in the map whose params and input are both at their end waits in the
-- strand of the acceptor for its callback, or is owned by a live Server::Request that was not
-- committed or cancelled, or has its reply waiting in the strand of its connection.
pub no_request_lost :
    (handlers : ℕ → RequestHandler) (requests : RequestId → Request) (s : Application) (i r : ℕ)
    (c : Connection) (x : Entry)
    → ApplicationReach (new_application handlers requests) s
    → find i s.acceptor.active_connections ≡ some c
    → Holds c.connection_data r x
    → is_complete x ≡ true
    → IsTended s i r x.request_data c
no_request_lost handlers requests s i r c x h found holds full =
    (reach-ApplicationInv handlers requests s h).nothing_lost i r c x found holds full
