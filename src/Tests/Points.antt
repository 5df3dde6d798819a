-- ===== src/Tests/Points.antt =====
-- The tables, the dispatcher and the life of the objects on concrete inputs.
use gservices.Base.{
  ◌≡◌, refl, List, [], ◌∷◌, ◌++◌, some, true, false, done, thrown, stopped, out_of_bounds,
  duplicated, not_found, assertion, use_after_free, arith, replicate,
}
use gservices.Readwrite.{ret, ReadAnswer, segment, accepted}
use gservices.Readwrite.Stream.{stream}
use gservices.Binding.{on_link, local_respond}
use gservices.Binding.Responds.{reply_bytes}
use gservices.Session.Reply.{respond_then_receive}
use gservices.Message.{MsgEntryHeader, encode_entry, shutdown_message, encode_exit, service_exit}
use gservices.Reception.{ReceptionPoint, reception_point}
use gservices.Reception.Contract.{Call, outcomes, perform, promise, reception_point-outcomes}
use gservices.Locators.{LocalLocator, local_locator, stringficate}
use gservices.LocalAccess.{LocalLink, local_shutdown, destroy, local_transport}
use gservices.Access.{AccessPoint, receive_reply}
use gservices.LocalReception.{Sockets, read_request, socket_writen}
use gservices.LocalReception.Overflow.{read_request_overflows}
use gservices.LocalPoint.{
  Closing, local_reception_point, shut_down, Constructed, local_reception_point_lem, shut_down_lem,
}
use gservices.Remote.Life.{remote_shutdown, remote_destroy, destroy_lem}
use gservices.Tests.{strict, client, sockets, blocks, server, pending}

-- A header whose sizes come to 2 ^ 32 + 18, and five bytes of parameters.
abbrev huge : MsgEntryHeader
huge = record {
  deamon_service_code = 1;
  client_service_code = 0;
  parameters_size = 5;
  invocation_size = 4294967293;
}

abbrev attacked : ReceptionPoint Sockets
attacked = record server {
  link = record sockets {
    reads = λ fd.
        segment 1 (
          (0 ∷ 0 ∷ 0 ∷ 0 ∷ 0 ∷ 0 ∷ 0 ∷ 5 ∷ 0 ∷ 0 ∷ 0 ∷ 253 ∷ 255 ∷ 255 ∷ 255 ∷ [])
          ++ (1 ∷ 2 ∷ 3 ∷ 4 ∷ 5 ∷ []))
        ∷ [];
  };
}

read_request_overflows_example :
    (t : ReceptionPoint Sockets) × (read_request 4 (replicate 16 0) blocks attacked
      ≡ (stopped out_of_bounds, t))
unfolding encode_entry gservices.Wire.word
read_request_overflows_example =
    read_request_overflows 4 huge (1 ∷ 2 ∷ 3 ∷ 4 ∷ 5 ∷ []) [] blocks (replicate 16 0) attacked refl
      (omega arith) refl (omega arith) refl

abbrev calls : List Call
calls =
    Call.add 1 (65 ∷ []) 7
    ∷ Call.add 1 (66 ∷ []) 8
    ∷ Call.delete 0
    ∷ Call.delete 1
    ∷ Call.add 0 (67 ∷ []) 9
    ∷ Call.add 1 (68 ∷ []) 9
    ∷ Call.delete 0
    ∷ []

reception_point-outcomes_example :
    outcomes (perform {L = Unit {0}} strict) calls (reception_point tt 2)
    ≡ done tt ∷ thrown duplicated ∷ thrown not_found ∷ done tt ∷ done tt ∷ stopped assertion ∷ []
unfolding outcomes promise
reception_point-outcomes_example = reception_point-outcomes {L = Unit {0}} strict tt 2 calls refl

abbrev unset : LocalLocator
unset = record { deamon_location = replicate 9 0; deamon_socket = 0 }

-- A path of seven characters fits the locator and not an address of six.
local_reception_point_lem_example :
    (loc : LocalLocator) × (local_locator (replicate 7 65) unset ≡ some loc)
    × (stringficate loc ≡ replicate 7 65)
    × Constructed false
        (replicate 7 65)
        sockets
        2
        (local_reception_point strict 3 6 (λ path. true) true loc sockets 2 tt).0
local_reception_point_lem_example =
    local_reception_point_lem strict 3 6 (λ path. true) (replicate 7 65) unset sockets 2
      {S = Unit {0}} tt
      (
        omega arith,
        (
          omega arith,
          (omega arith, (omega arith, (omega arith, (omega arith, (omega arith, tt))))),
        ),
      )
      (omega arith) (omega arith) refl

abbrev pub named : LocalLocator
named = record { deamon_location = 65 ∷ 66 ∷ 0 ∷ 0 ∷ []; deamon_socket = 0 }

abbrev pub new_link : LocalLink
new_link = record { reads = []; writes = accepted 20 ∷ []; sent = []; alive = true }

abbrev pub running : Closing
running = record { client = client; listening = true; linked = true }

shut_down_lem_example :
    (t : Closing) × (shut_down strict 3 6
        (λ path. true)
        named
        new_link
        (false ∷ false ∷ true ∷ [])
        running
      ≡ (done tt, t))
    × (t.client.link.sent ≡ encode_entry shutdown_message)
    × (t.client.link.alive ≡ false)
    × (t.listening ≡ false)
    × (t.linked ≡ false)
unfolding stringficate gservices.Wire.c_str
shut_down_lem_example =
    shut_down_lem strict 3 6 (λ path. true) named (65 ∷ 66 ∷ []) new_link 2 [] running (omega arith)
      (omega arith, (omega arith, tt)) refl (omega arith) refl (omega arith)

destroy_lem_example :
    ((local_shutdown client).0 ≡ done tt)
    × (destroy (local_shutdown client).1 ≡ (done tt, (local_shutdown client).1))
    × ((remote_shutdown (record { access = client; alive = true })).0 ≡ done tt)
    × (remote_destroy (record { access = client; alive = false })
        ≡ (stopped use_after_free, record { access = client; alive = false }))
unfolding remote_shutdown
destroy_lem_example = destroy_lem client (record { access = client; alive = true }) refl refl

-- A client that waits, and to whom the reply of binding 20 comes with a byte of the next one.
abbrev pub waiting_client : AccessPoint LocalLink
waiting_client = record client {
  locked = true;
  link = record (client.link) {
    reads =
        segment 3 (0 ∷ 0 ∷ 0 ∷ 17 ∷ 0 ∷ 0 ∷ 0 ∷ 0 ∷ 0 ∷ 0 ∷ 0 ∷ 5 ∷ 0 ∷ 0 ∷ 0 ∷ 42 ∷ 9 ∷ []) ∷ [];
  };
}

respond_then_receive_example :
    ((local_respond (on_link socket_writen) strict 20 (service_exit 5) (42 ∷ []) 17 server).0
      ≡ done (ret 17))
    × (rest : List ReadAnswer) × (receive_reply
          (local_transport strict)
          strict
          (replicate 17 0)
          17
          waiting_client
        ≡ (
          done (reply_bytes (service_exit 5) (42 ∷ []) 0),
          record waiting_client {
            locked = false;
            link = record (waiting_client.link) { reads = rest };
          },
        ))
    × (stream rest ≡ 9 ∷ [])
unfolding local_respond socket_writen gservices.Readwrite.writen encode_exit gservices.Wire.word
    gservices.Binding.find_binding gservices.Binding.update_binding
respond_then_receive_example =
    respond_then_receive strict (service_exit 5) (42 ∷ []) (9 ∷ []) 20 pending server waiting_client
      (replicate 17 0) refl refl (omega arith) (omega arith) (omega arith) (omega arith) refl refl
