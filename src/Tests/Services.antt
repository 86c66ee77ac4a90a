-- ===== src/Tests/Services.antt =====
-- A request that is read, and answered.
use santiago_old.Prelude.{refl, inl, false, [], ◌∷◌, arith}
use santiago_old.OrderedMap.{find}
use santiago_old.RequestData.{RequestData}
use santiago_old.PacketSocket.{new_packet_socket}
use santiago_old.PacketSocket.Read.{handle_read}
use santiago_old.PacketSocket.Frames.{packets_bytes}
use santiago_old.ConnectionData.{new_connection_data}
use santiago_old.ConnectionData.Addresses.{new-IsAddressed}
use santiago_old.Connection.{new_connection, host}
use santiago_old.Connection.Feeds.{ops_of}
use santiago_old.Connection.Arrived.{sent}
use santiago_old.Connection.Service.{Attends, request_served}
use santiago_old.Tests.{memory}
use santiago_old.Tests.Arrivals.{
  posted, idle, idle_opened, idle_empty, none_left, posted-IsRequest, small-IsPacket,
}
use santiago_old.Tests.Peers.{listener}

-- Whatever the request, "hi" is put out, with the status 3.
abbrev greet : RequestData → RequestData
greet d = record d { out_buffer = 104 ∷ 105 ∷ []; err_buffer = []; app_status = 3 }

request_served_example :
    Attends 7
      (ops_of posted.chunks)
      greet
      idle
      listener
      (handle_read host false (packets_bytes (sent posted)) idle)
unfolding new_connection new_connection_data new_packet_socket find
request_served_example =
    request_served 7 posted [] (packets_bytes (sent posted)) idle greet listener posted-IsRequest
      small-IsPacket (inl none_left) idle_opened (λ k. refl) refl idle_empty refl
      (new-IsAddressed memory) refl (λ d. omega arith) (λ d. omega arith) refl refl refl
