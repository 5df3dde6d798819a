-- ===== src/Tests/Runs.antt =====
-- Runs of the server that answers several clients on concrete inputs.
use gservices.Base.{ℕ, ◌≡◌, refl, List, [], ◌∷◌, ◌++◌, none, some, done, arith}
use gservices.Message.{encode_entry, shutdown_message}
use gservices.Message.Layout.{decode_entry-encode_entry}
use gservices.Multiserver.{Multiserver}
use gservices.Multiserver.Engine.{
  Functions, rpc_request, single_message, Incoming, take_message, locator_deamon_engine, shut_down,
  destroy_point,
}
use gservices.Multiserver.Answers.{answering, after_answer, IsAnswered, request_answered}
use gservices.Multiserver.Runs.{messages, replied, Served, locator_deamon_engine_serves}
use gservices.Multiserver.Closing.{Closed, shut_down_serves}
use gservices.Tests.{strict, header, parameters}
use gservices.Tests.Multi.{Wire, network, locate, busy, full}

abbrev reply : List ℕ
reply = 1 ∷ 0 ∷ 0 ∷ 0 ∷ 2 ∷ 0 ∷ 0 ∷ 0 ∷ 16 ∷ 0 ∷ 0 ∷ 0 ∷ 0 ∷ 0 ∷ 0 ∷ 0 ∷ []

-- Each `Sync_Service` answers at once.
abbrev functions : Functions Wire
functions = record {
  sync_fct = λ fct message binding. answering network strict reply binding;
  async_fct = λ fct message s. (done tt, s);
}

-- The second request gets the addresses that the first has left.
abbrev request : ℕ → Incoming
request id = record {
  id = id;
  flags = rpc_request;
  body = encode_entry header ++ parameters;
  body_size = 18;
  message = 90;
  binding_point = 91;
  node = 92;
}

abbrev requests : List (Incoming × List ℕ)
requests = (request 8, reply) ∷ (request 9, reply) ∷ []

abbrev stop : Incoming
stop = record (request 10) {
  flags = single_message;
  body = encode_entry shutdown_message;
  body_size = 16;
}

abbrev push : ℕ → List ℕ → Wire → Wire
push id message l = l ++ (id, message) ∷ []

abbrev answered :
    (id : ℕ) → IsAnswered network strict functions push full.table (busy ∷ []) reply (request id)
unfolding encode_entry gservices.Wire.word gservices.Multiserver.Engine.message_id_of
answered id = record {
  header = header;
  rest = parameters;
  service = locate;
  flags = refl;
  fits = omega arith;
  inside = omega arith;
  reads = decode_entry-encode_entry header parameters (omega arith);
  code = refl;
  there = refl;
  type = refl;
  answers = λ s. refl;
  sized = omega arith;
  fresh = refl;
}

request_answered_example :
    take_message functions strict none (request 8) full
    ≡ (done (some 91), after_answer push reply (request 8) full)
request_answered_example =
    request_answered network strict functions push none (request 8) reply full (λ bytes id l. refl)
      refl refl (answered 8)

locator_deamon_engine_serves_example :
    (t : Multiserver Wire) × (locator_deamon_engine functions strict none
        (messages requests (stop ∷ request 11 ∷ []))
        full
      ≡ (done tt, t))
    × Served push requests full t
locator_deamon_engine_serves_example =
    locator_deamon_engine_serves network strict functions push none requests stop (request 11 ∷ [])
      full (λ bytes id l. refl) refl refl (answered 8, (answered 9, tt))
      (record { flags = refl; body = refl; body_size = refl })

shut_down_serves_example :
    (t : Multiserver Wire) × (shut_down network strict
        (locator_deamon_engine functions strict none (messages requests (stop ∷ request 11 ∷ [])))
        7
        full
      ≡ (done tt, t))
    × Closed full.table
        (busy ∷ [])
        (replied push requests ((7, encode_entry shutdown_message) ∷ []))
        full.live
        t
    × (destroy_point network strict
          (locator_deamon_engine functions strict none (messages requests (stop ∷ request 11 ∷ [])))
          7
          t
        ≡ (done tt, t))
shut_down_serves_example =
    shut_down_serves network strict functions push none requests stop (request 11 ∷ []) 7 6 full
      ((7, encode_entry shutdown_message) ∷ []) (λ bytes id l. refl) refl refl
      (answered 8, (answered 9, tt)) (record { flags = refl; body = refl; body_size = refl }) refl
