-- ===== src/Tests/Calls.antt =====
-- Whole calls between a client and a server on concrete inputs.
use gservices.Base.{
  Outcome, ℕ, M, ◌==◌, if◌then◌else◌, ◌≡◌, refl, List, [], ◌∷◌, ◌++◌, none, some, true, false, done,
  arith, replicate,
}
use gservices.Readwrite.{ret, ReadAnswer, segment, accepted}
use gservices.Readwrite.Stream.{stream}
use gservices.Message.{service_exit, encode_entry, shutdown_message}
use gservices.Access.{AccessPoint, receive_reply}
use gservices.Reception.{Service, ReceptionPoint}
use gservices.Binding.Responds.{reply_bytes}
use gservices.Dispatcher.{Server}
use gservices.LocalAccess.{LocalLink, local_transport}
use gservices.LocalReception.{Sockets}
use gservices.LocalEngine.{round, Round, fd_setsize, Engine, engine, serve}
use gservices.LocalEngine.Answers.{AnswersRequest, local_answer}
use gservices.Remote.{IpcClient, Incoming, take_request, remote_transport}
use gservices.Remote.Answers.{remote_answer}
use gservices.Session.RemoteCall.{remote_call_answered, sending as remote_sending}
use gservices.Session.Call.{sending, call_answered}
use gservices.Tests.{strict, header, parameters, buffer, sockets, blocks}
use gservices.Tests.Server.{full}
use gservices.Tests.Points.{waiting_client}

-- Every service answers at once with one byte behind the header.
abbrev pub echo : Server Sockets
echo = record {
  respond = λ binding h body size s. (done (ret 0), s);
  service = λ f binding message. local_answer strict (service_exit 5) (42 ∷ []) binding;
}

abbrev pub first_service : Service
first_service = record { service_name = 65 ∷ []; service_function = 1 }

-- A client that has sent nothing yet; its socket will deliver the reply, and a byte of the next.
abbrev caller : AccessPoint LocalLink
caller = record waiting_client { locked = false }

abbrev pub serving : Engine
serving = record (engine full 3 (replicate 16 0)) { client = none ∷ some 4 ∷ []; used = 2 }

abbrev sent : AccessPoint LocalLink
sent = (sending strict header parameters [] buffer (88 ∷ []) caller).1

asked :
    AnswersRequest strict
      (service_exit 5)
      (42 ∷ [])
      echo
      4
      blocks
      header
      parameters
      buffer
      (9 ∷ [])
      first_service
      full
asked = record { code = refl; all = refl; there = refl; answers = λ s. refl }

call_answered_example :
    ((sending strict header parameters [] buffer (88 ∷ []) caller).0 ≡ done tt)
    × (rest : List ReadAnswer) × (receive_reply
          (local_transport strict)
          strict
          (replicate 17 0)
          17
          sent
        ≡ (
          done (reply_bytes (service_exit 5) (42 ∷ []) 0),
          record sent { locked = false; link = record (sent.link) { reads = rest } },
        ))
    × (stream rest ≡ 9 ∷ [])
    × (stream ((serve echo strict 1 4 blocks serving).1.point.link.reads 4) ≡ 9 ∷ [])
unfolding gservices.Access.send_with_buffer gservices.Message.decode_entry gservices.Wire.take_word
    encode_entry gservices.Wire.word gservices.Access.check_header gservices.LocalAccess.writen_f
    gservices.Readwrite.writen serve gservices.LocalReception.read_request
    gservices.LocalReception.socket_readn gservices.Readwrite.readn
    gservices.LocalReception.read_message gservices.LocalReception.store
    gservices.LocalReception.block gservices.LocalReception.read_part
    gservices.Dispatcher.dispatcher gservices.Binding.change_binding gservices.Binding.find_binding
    gservices.Binding.update_binding gservices.LocalEngine.none_left gservices.Message.entry_at
    gservices.Reception.binding_list_freeing_fct gservices.Reception.entry
    gservices.Binding.local_respond gservices.LocalReception.socket_writen
    gservices.Message.encode_exit
call_answered_example =
    call_answered strict header parameters buffer (9 ∷ []) (service_exit 5) (42 ∷ []) (9 ∷ []) echo
      4 blocks first_service [] (88 ∷ []) 1 caller serving (replicate 17 0) refl refl
      (65 ∷ [], refl)
      (record { words = omega arith; parameters_counted = refl; total_fits = omega arith }) refl
      (omega arith) (omega arith) refl asked refl (omega arith) (omega arith) (omega arith)
      (omega arith) refl refl refl

-- Descriptor 4 is the connection of `shutdown`; that of descriptor 5 is an idle client's.
abbrev stopping : Engine
stopping = record serving {
  client = some 5 ∷ some 4 ∷ replicate 1022 none;
  allset = λ fd. true;
  maxfd = 5;
  point = record full {
    link = record sockets {
      reads = λ fd. segment 2 (0 ∷ 0 ∷ 0 ∷ 3 ∷ 0 ∷ 0 ∷ 0 ∷ 0 ∷ 0 ∷ 0 ∷ 0 ∷ 0 ∷ 0 ∷ 0 ∷ 0 ∷ []) ∷ [];
    };
  };
}

abbrev last_turn : Round
last_turn = record { rset = λ fd. fd == 4; nready = ret 1; connfd = ret 0; blocks = λ i. blocks }

-- An IPC that keeps what it is given: the request, and the replies by their id.
abbrev ipc : IpcClient (List ℕ)
ipc = record {
  receive_reply = λ l. (done (reply_bytes (service_exit 5) (42 ∷ []) 0), l);
  send_request = λ message l. (done tt, message);
}

abbrev keep_reply : List ℕ → ℕ → M (ℕ → List ℕ) (Unit {0})
keep_reply message id r = (done tt, λ j. if id == j then message else r j)

abbrev remote_echo : Server (ℕ → List ℕ)
remote_echo = record {
  respond = λ binding h body size s. (done (ret 0), s);
  service = λ f binding message. remote_answer keep_reply (service_exit 5) (42 ∷ []) binding;
}

abbrev remote_caller : AccessPoint (List ℕ)
remote_caller = record {
  link = [];
  table = some (65 ∷ []) ∷ none ∷ [];
  locked = false;
  is_shutdown = false;
}

abbrev remote_server : ReceptionPoint (ℕ → List ℕ)
remote_server = record {
  link = λ j. [];
  table = full.table;
  number_of_services = 2;
  registered_services = 2;
  is_shutdown = false;
  binding_list = [];
  freed = [];
}

abbrev arriving : Incoming
arriving = record {
  id = 6;
  body = encode_entry header ++ (parameters ++ buffer);
  message = 90;
  binding_point = 91;
  node = 92;
}

abbrev remote_sent : Outcome (Unit {0}) × AccessPoint (List ℕ)
remote_sent = remote_sending ipc strict [] header parameters [] buffer (88 ∷ []) remote_caller

remote_call_answered_example :
    (remote_sent.0 ≡ done tt)
    × ((take_request keep_reply remote_echo strict [] arriving remote_server).0
        ≡ done (encode_entry header ++ (parameters ++ buffer)))
    × (receive_reply (remote_transport ipc strict []) strict (replicate 17 0) 17 remote_sent.1 ≡ (
      done (reply_bytes (service_exit 5) (42 ∷ []) 0),
      record (remote_sent.1) { locked = false; link = remote_sent.1.link },
    ))
unfolding gservices.Access.send_with_buffer encode_entry gservices.Message.decode_entry
    gservices.Wire.word gservices.Wire.take_word gservices.Access.check_header
    gservices.Remote.writen_f take_request gservices.Message.encode_exit
    gservices.Remote.reply_to_shutdown gservices.Reception.binding_list_freeing_fct
    gservices.Dispatcher.dispatcher gservices.Binding.change_binding gservices.Binding.find_binding
    gservices.Binding.remote_respond gservices.Binding.update_binding
remote_call_answered_example =
    remote_call_answered ipc keep_reply (λ l. l) (λ r id. r id) remote_echo strict header parameters
      [] buffer (88 ∷ []) (service_exit 5) (42 ∷ []) [] [] arriving first_service remote_caller
      remote_server (replicate 17 0) remote_sent.1.link
      (record {
        requests = λ message l small. (message, refl, refl);
        replies = λ message id r small. (_, refl, ground arith);
      })
      refl refl (65 ∷ [], refl)
      (record { words = omega arith; parameters_counted = refl; total_fits = omega arith })
      (omega arith) refl refl refl refl refl (λ t. refl) (omega arith) (omega arith) (omega arith)
      refl refl
