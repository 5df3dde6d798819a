-- ===== src/Tests/Turns.antt =====
-- Turns of the local server's engine on concrete inputs.
use gservices.Base.{ℕ, ◌<◌, ◌==◌, get_elem?, ◌≡◌, refl, [], ◌∷◌, some, false, arith, blocked}
use gservices.Readwrite.{ret, ReadAnswer, segment, accepted}
use gservices.Message.{service_exit, encode_entry, shutdown_message}
use gservices.Reception.{Service, ReceptionPoint}
use gservices.Dispatcher.{Server}
use gservices.LocalReception.{Sockets}
use gservices.LocalEngine.Turns.{Turn, IsServed, sent_by, deamon_engine_answers}
use gservices.LocalEngine.Serves.{Waits}
use gservices.LocalEngine.{round, Round, fd_setsize, Engine, engine, serve, deamon_engine}
use gservices.Tests.{arrivals, strict, header, parameters, buffer, sockets, blocks}
use gservices.Tests.Server.{full}
use gservices.Tests.Calls.{echo, first_service, serving}

-- Both clients have sent the same request; their sockets are served one after the other.
abbrev two_requests : Engine
two_requests = record serving {
  client = some 5 ∷ some 4 ∷ [];
  point = record full { link = record sockets { reads = λ fd. arrivals } };
}

abbrev turn_of : ℕ → ℕ → ℕ → Turn
turn_of index fd behind = record {
  answers = record { rset = λ j. j == fd; nready = ret 1; connfd = ret 0; blocks = λ i. blocks };
  index = index;
  fd = fd;
  behind = behind;
  request = header;
  parameters = parameters;
  invocation = buffer;
  later = 9 ∷ [];
  service = first_service;
  reply = service_exit 5;
  body = 42 ∷ [];
}

Waits-4 : (m : ℕ) → m < 1 → Waits (turn_of 1 4 0).answers (get_elem? two_requests.client m)
Waits-4 ℕ.zero h = refl
Waits-4 (ℕ.suc m) h = absurd (omega arith)

turn_4 : IsServed echo strict (turn_of 1 4 0) two_requests
unfolding encode_entry gservices.Wire.word
turn_4 = record {
  nobody_new = refl;
  one = refl;
  used = refl;
  before = λ m h. Waits-4 m h;
  there = refl;
  ready = refl;
  sized = refl;
  fit = record {
    words = omega arith;
    parameters_counted = refl;
    invocation_counted = refl;
    total_fits = omega arith;
  };
  arrives = refl;
  asked = record { code = refl; all = refl; there = refl; answers = λ s. refl };
  room = omega arith;
  small = omega arith;
}

turn_5 :
    IsServed echo strict (turn_of 0 5 1) (round echo strict (turn_of 1 4 0).answers two_requests).1
unfolding encode_entry gservices.Wire.word gservices.LocalEngine.round gservices.LocalEngine.scan
    gservices.LocalEngine.visit gservices.LocalEngine.visit_entry gservices.Message.decode_entry
    gservices.Wire.take_word serve gservices.LocalReception.read_request
    gservices.LocalReception.socket_readn gservices.Readwrite.readn
    gservices.LocalReception.read_message gservices.LocalReception.store
    gservices.LocalReception.block gservices.LocalReception.read_part
    gservices.Dispatcher.dispatcher gservices.Binding.change_binding gservices.Binding.find_binding
    gservices.Binding.update_binding gservices.LocalEngine.none_left gservices.Message.entry_at
    gservices.Reception.binding_list_freeing_fct gservices.Reception.entry
    gservices.Binding.local_respond gservices.LocalReception.socket_writen
    gservices.Readwrite.writen gservices.Message.encode_exit
turn_5 = record {
  nobody_new = refl;
  one = refl;
  used = refl;
  before = λ m h. absurd (omega arith);
  there = refl;
  ready = refl;
  sized = refl;
  fit = record {
    words = omega arith;
    parameters_counted = refl;
    invocation_counted = refl;
    total_fits = omega arith;
  };
  arrives = refl;
  asked = record { code = refl; all = refl; there = refl; answers = λ s. refl };
  room = omega arith;
  small = omega arith;
}

deamon_engine_answers_example :
    (t : Engine) × (deamon_engine echo strict
        ((turn_of 1 4 0).answers ∷ (turn_of 0 5 1).answers ∷ [])
        two_requests
      ≡ (blocked, t))
    × (t.point.link.sent ≡ sent_by (turn_of 1 4 0 ∷ turn_of 0 5 1 ∷ []) (λ fd. []))
    × (t.point.is_shutdown ≡ false)
deamon_engine_answers_example =
    deamon_engine_answers echo strict (turn_of 1 4 0 ∷ turn_of 0 5 1 ∷ []) two_requests refl
      (turn_4, (turn_5, tt))
