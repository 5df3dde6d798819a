-- ===== src/Tests/Multi.antt =====
-- The server that answers several clients on concrete inputs.
use gservices.Base.{
  ℕ, ◌≡◌, ◌≢◌, refl, List, [], ◌∷◌, ◌++◌, none, some, true, false, done, stopped, null_pointer,
  arith,
}
use gservices.Message.{MsgEntryHeader, encode_entry}
use gservices.Message.Layout.{decode_entry-encode_entry}
use gservices.Multiserver.{loccom_rpc, loccom_async, Service, BindingNode, Multiserver, Network}
use gservices.Multiserver.Sender.{async_send, rpc_send}
use gservices.Multiserver.Sending.{send_unregistered_stops}
use gservices.Multiserver.Engine.{Functions, single_message, Incoming, take_message}
use gservices.Multiserver.Bindings.{single_message_served, take_message_leaks, before_dispatch}
use gservices.Tests.{strict, header, parameters}

-- What was sent, to which port.
abbrev pub Wire : Type 0
Wire = List (ℕ × List ℕ)

abbrev pub network : Network Wire
network = record {
  rpc_send_request = λ port message l. (done 5, l ++ (port, message) ∷ []);
  send_message = λ port message l. (done 6, l ++ (port, message) ∷ []);
  rpc_send_reply = λ message id l. (done tt, l ++ (id, message) ∷ []);
}

abbrev pub locate : Service
locate = record { address = 40; service_name = 65 ∷ []; who_am_i = loccom_rpc; fct = 1 }

abbrev notify : Service
notify = record { address = 41; service_name = 66 ∷ []; who_am_i = loccom_async; fct = 2 }

abbrev pub busy : BindingNode
busy = record { node = 50; binding_point = 51; still_busy = true; message_id = 3 }

-- Service 0 is an RPC and service 1 is not registered.
abbrev server : Multiserver Wire
server = record {
  link = [];
  table = some locate ∷ none ∷ [];
  number_of_services = 2;
  registered_services = 1;
  is_shutdown = false;
  binding_list = busy ∷ record busy { node = 52; binding_point = 53; still_busy = false } ∷ [];
  dispatched_message_id = 0;
  live = 70 ∷ [];
  freed = [];
}

-- Service 1 is registered, too.
abbrev pub full : Multiserver Wire
full = record server { table = some locate ∷ some notify ∷ []; registered_services = 2 }

abbrev unregistered : MsgEntryHeader
unregistered = record header { client_service_code = 1 }

abbrev unregistered_request : List ℕ
unregistered_request = encode_entry unregistered ++ parameters

send_unregistered_stops_example :
    (async_send network strict 9 unregistered_request server ≡ (stopped null_pointer, server))
    × (rpc_send network strict 9 unregistered_request 18 server ≡ (stopped null_pointer, server))
send_unregistered_stops_example =
    send_unregistered_stops network strict server unregistered unregistered_request parameters 9 18
      refl (decode_entry-encode_entry unregistered parameters (omega arith)) refl refl

-- The services note their number in the link.
abbrev functions : Functions Wire
functions = record {
  sync_fct = λ f message binding s. (done tt, record s { link = s.link ++ (f, message) ∷ [] });
  async_fct = λ f message s. (done tt, record s { link = s.link ++ (f, message) ∷ [] });
}

abbrev notification : Incoming
notification = record {
  id = 8;
  flags = single_message;
  body = unregistered_request;
  body_size = 18;
  message = 90;
  binding_point = 91;
  node = 92;
}

single_message_served_example : take_message functions strict none notification full ≡ (
  done none,
  record full {
    link = (2, unregistered_request) ∷ [];
    dispatched_message_id = 8;
    binding_list = busy ∷ [];
    freed = 53 ∷ 52 ∷ [];
  },
)
unfolding encode_entry gservices.Wire.word
single_message_served_example =
    single_message_served functions strict notification unregistered parameters full none notify
      (record (before_dispatch notification full) { link = (2, unregistered_request) ∷ [] }) refl
      (omega arith) (omega arith) (decode_entry-encode_entry unregistered parameters (omega arith))
      refl refl refl refl refl refl

-- A registration, which this server does not know.
abbrev registration : MsgEntryHeader
registration = record header { deamon_service_code = 0 }

abbrev stray : Incoming
stray = record notification { body = encode_entry registration ++ parameters }

zero_is_not_one : ◌≢◌ {A = ℕ} 0 1
zero_is_not_one e = absurd (omega (arith, e))

zero_is_not_two : ◌≢◌ {A = ℕ} 0 2
zero_is_not_two e = absurd (omega (arith, e))

take_message_leaks_example :
    take_message functions strict none stray full ≡ (done none, before_dispatch stray full)
unfolding encode_entry gservices.Wire.word
take_message_leaks_example =
    take_message_leaks functions strict stray registration parameters full none refl (omega arith)
      (omega arith) (decode_entry-encode_entry registration parameters (omega arith))
      zero_is_not_one zero_is_not_two
