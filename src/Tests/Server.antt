-- ===== src/Tests/Server.antt =====
-- The server's side on concrete inputs.
use gservices.Base.{
  get_elem?, none, ◌<◌, ℕ, ◌+◌, ◌==◌, ◌≡◌, refl, List, [], ◌∷◌, ◌++◌, some, true, false, done, M,
  stopped, assertion, Ends, arith, length, drop, replicate,
}
use mathlib.Core.List.{Perm}
use gservices.Readwrite.{
  Ssize, ret, minus_one, ReadAnswer, segment, interrupted, closed, WriteAnswer, accepted,
}
use gservices.Readwrite.Stream.{stream}
use gservices.Message.{
  MsgEntryHeader, MsgExitHeader, service_not_found, registration_ok, service_not_found,
  service_exit, response_for_registration, encode_entry, encode_exit, decode_entry,
  register_message, header_size, shutdown_message, shutdown_response,
}
use gservices.Message.Layout.{registration}
use gservices.Access.{AccessPoint}
use gservices.LocalAccess.{LocalLink, local_transport}
use gservices.Reception.{
  Service, BindingNode, ReceptionPoint, reception_point, add_service, delete_service,
  binding_list_freeing_fct,
}
use gservices.Reception.{binding_list_freeing_fct}
use gservices.Reception.Table.{
  IsValid, add_service-IsValid, delete_service-IsValid, add_service_new, delete_add_stops,
  entry_for,
}
use gservices.Reception.Freeing.{owned, binding_list_freeing_fct_lem, binding_list_freeing_fct-perm}
use gservices.Binding.{
  on_link, local_respond_with_buffer, remote_respond_with_buffer, local_respond, is_failure,
  update_binding,
}
use gservices.Binding.Responds.{remote_respond_with_buffer_sends, reply_bytes}
use gservices.Dispatcher.{Server, dispatcher}
use gservices.Dispatcher.Actions.{registered, dispatcher_adds}
use gservices.LocalReception.{Sockets, read_request, new_node}
use gservices.LocalReception.Framing.{read_request_frames}
use gservices.LocalEngine.{Engine, Round, engine, scan, deamon_engine}
use gservices.LocalEngine.Serves.{Waits}
use gservices.LocalEngine.Clients.{IsNew, engine-IsValid, engine-IsNew}
use gservices.LocalEngine.Runs.{deamon_engine-IsValid}
use gservices.Session.{send_then_read}
use gservices.Remote.{IpcClient, readn_f, Incoming, new_node as remote_node}
use gservices.Remote.Serving.{deamon_engine_ends}
use gservices.Tests.{
  lax, strict, header, parameters, buffer, client, sockets, blocks, pending, server,
}

read_request_frames_example :
    (l : Sockets) × (read_request 4 (replicate 16 0) blocks server ≡ (
      done (encode_entry header, some (encode_entry header ++ (parameters ++ buffer))),
      record server { link = l; binding_list = new_node 4 blocks ∷ server.binding_list },
    ))
    × (stream (l.reads 4) ≡ 9 ∷ [])
unfolding encode_entry gservices.Wire.word
read_request_frames_example =
    read_request_frames 4 header parameters buffer (9 ∷ []) blocks (replicate 16 0) server refl
      (record {
        words = omega arith;
        parameters_counted = refl;
        invocation_counted = refl;
        total_fits = omega arith;
      })
      refl

send_then_read_example :
    (l : Sockets) × (read_request 4 (replicate 16 0) blocks server ≡ (
      done (encode_entry header, some (encode_entry header ++ (parameters ++ buffer))),
      record server { link = l; binding_list = new_node 4 blocks ∷ server.binding_list },
    ))
    × (stream (l.reads 4) ≡ 9 ∷ [])
unfolding gservices.Access.send_with_buffer gservices.Access.check_header
    gservices.LocalAccess.writen_f gservices.Readwrite.writen gservices.Message.decode_entry
    encode_entry gservices.Wire.word gservices.Wire.take_word
send_then_read_example =
    send_then_read strict header parameters (77 ∷ []) buffer (88 ∷ []) (9 ∷ []) client server 4
      (replicate 16 0) blocks refl refl (65 ∷ [], refl)
      (record { words = omega arith; parameters_counted = refl; total_fits = omega arith }) refl
      (omega arith) refl refl

valid : IsValid server
unfolding gservices.Reception.Table.count_entries
valid = record { sized = refl; bounded = omega arith; counted = omega arith }

add_service-IsValid_example : Ends (λ _. IsValid) IsValid (add_service strict 1 (66 ∷ []) 2 server)
add_service-IsValid_example = add_service-IsValid strict 1 (66 ∷ []) 2 server refl valid

-- The server once its second service is registered.
abbrev pub full : ReceptionPoint Sockets
full = record server {
  table = entry_for (65 ∷ []) 1 ∷ entry_for (66 ∷ []) 2 ∷ [];
  registered_services = 2;
}

delete_add_stops_example :
    (add_service strict 0 (67 ∷ []) 3 (delete_service 0 full).1).0 ≡ stopped assertion
delete_add_stops_example =
    delete_add_stops strict 0 (67 ∷ []) 3 (record { service_name = 65 ∷ []; service_function = 1 })
      full refl refl refl

binding_list_freeing_fct_lem_example :
    binding_list_freeing_fct server
    ≡ (done tt, record server { binding_list = pending ∷ []; freed = 1 ∷ 11 ∷ 21 ∷ 31 ∷ [] })
binding_list_freeing_fct_lem_example = binding_list_freeing_fct_lem server

binding_list_freeing_fct-perm_example :
    Perm (owned (binding_list_freeing_fct server).1) (11 ∷ 21 ∷ 31 ∷ 10 ∷ 20 ∷ 30 ∷ 1 ∷ [])
binding_list_freeing_fct-perm_example = binding_list_freeing_fct-perm server

-- What one socket has been sent, as the whole link.
abbrev sender : ℕ → List ℕ → M Sockets Ssize
sender fd bytes l = (done (ret (length bytes)), record l { sent = λ j. l.sent j ++ bytes })

-- A server that notes nothing of its answers and whose services do nothing.
abbrev callbacks : Server Sockets
callbacks = record {
  respond = λ binding h body size s. (done (ret size), s);
  service = λ f binding message s. (done tt, s);
}

abbrev registering : List ℕ → List ℕ
registering name =
    encode_entry (registration 0) ++ (name ++ 0 ∷ drop (length name + 1) (replicate 80 0))

-- The name of the entry is another one, and the server goes on after the ERROR.
dispatcher_adds_example :
    dispatcher callbacks lax 20 10 (registering (66 ∷ [])) server
    ≡ registered callbacks lax 20 (66 ∷ []) (entry_for (65 ∷ []) 1) server
unfolding register_message gservices.Wire.strcpy
dispatcher_adds_example =
    dispatcher_adds callbacks lax 20 10 0 (66 ∷ []) (replicate 80 0) (registering (66 ∷ []))
      (entry_for (65 ∷ []) 1) server (omega arith) (omega arith, tt) (omega arith) refl refl

-- A connection arrives on the listening socket 3, and gets descriptor 4.
abbrev arrival : Round
arrival = record { rset = λ fd. fd == 3; nready = ret 1; connfd = ret 4; blocks = λ i. blocks }

accepts : ((n : ℕ) → arrival.connfd ≡ ret n → IsNew (engine server 3 []) n) × Unit {0}
accepts = (λ n e. engine-IsNew server 3 n [] (λ three. ground (arith, e, three)), tt)

deamon_engine-IsValid_example :
    gservices.LocalEngine.Clients.IsValid
      (deamon_engine callbacks strict (arrival ∷ []) (engine server 3 [])).1
deamon_engine-IsValid_example =
    deamon_engine-IsValid callbacks strict refl (arrival ∷ []) (engine server 3 []) accepts
      (engine-IsValid server 3 [])

abbrev late : Incoming
late = record { id = 7; body = []; message = 12; binding_point = 22; node = 32 }

abbrev stopping : Incoming
stopping = record late { body = encode_entry shutdown_message }

abbrev reply_log : List ℕ → ℕ → M Sockets (Unit {0})
reply_log bytes id l = (done tt, record l { sent = λ j. bytes })

deamon_engine_ends_example :
    gservices.Remote.deamon_engine reply_log callbacks strict
      (replicate 4096 0)
      (stopping ∷ late ∷ [])
      server
    ≡ (
      done tt,
      record server {
        link = record sockets { sent = λ j. encode_exit shutdown_response };
        is_shutdown = true;
        binding_list = record (remote_node stopping) { still_busy = false } ∷ pending ∷ [];
        freed = 1 ∷ 11 ∷ 21 ∷ 31 ∷ [];
      },
    )
deamon_engine_ends_example =
    deamon_engine_ends reply_log callbacks strict (replicate 4096 0) stopping (late ∷ []) server
      (record sockets { sent = λ j. encode_exit shutdown_response }) refl refl refl

-- A connection that holds the next reply.
abbrev ipc : IpcClient (List ℕ)
ipc = record { receive_reply = λ l. (done l, []); send_request = λ message l. (done tt, l) }

-- The binding list once the pending request is answered.
abbrev all_answered : List BindingNode
all_answered =
    record pending { node = 31; binding_point = 21; message = 11; still_busy = false }
    ∷ record pending { still_busy = false }
    ∷ []

remote_respond_with_buffer_sends_example :
    remote_respond_with_buffer
      (on_link (λ id message. reply_log message id))
      20
      (service_exit 5)
      (42 ∷ [])
      17
      buffer
      server
    ≡ (
      done (ret 0),
      record server {
        link = record sockets { sent = λ j. reply_bytes (service_exit 5) (42 ∷ []) 3 ++ buffer };
        binding_list = all_answered;
      },
    )
unfolding update_binding gservices.Binding.find_binding
remote_respond_with_buffer_sends_example =
    remote_respond_with_buffer_sends (λ id message. reply_log message id) 20 (service_exit 5)
      (42 ∷ []) buffer server pending
      (record sockets { sent = λ j. reply_bytes (service_exit 5) (42 ∷ []) 3 ++ buffer })
      (omega arith) refl refl

-- Entry 0 is free, and the request of the client on descriptor 4 stands behind it.
abbrev pub turn : Round
turn = record { rset = λ fd. fd == 4; nready = ret 1; connfd = ret 0; blocks = λ i. blocks }

abbrev pub serving : Engine
serving = record (engine server 3 (replicate 16 0)) {
  client = none ∷ some 4 ∷ [];
  used = 2;
  nready = ret 1;
}

pub serving-Waits : (m : ℕ) → m < 1 → Waits turn (get_elem? serving.client m)
serving-Waits ℕ.zero h = tt
serving-Waits (ℕ.suc m) h = absurd (omega arith)
