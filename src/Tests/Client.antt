-- ===== src/Tests/Client.antt =====
-- The client's side and the wire on concrete inputs.
use gservices.Base.{
  ℕ, ◌≡◌, refl, List, [], ◌∷◌, ◌++◌, some, true, false, done, thrown, blocked, not_found, arith,
  take, drop, replicate,
}
use gservices.Wire.{IsText}
use gservices.Readwrite.{ret, minus_one, ReadAnswer, segment, failed, WriteAnswer, readn, writen}
use gservices.Readwrite.Stream.{stream, ending, readn_delivers, readn-Stops}
use gservices.Readwrite.Output.{writen_sends}
use gservices.Message.{MsgEntryHeader, MsgExitHeader, service_not_found, encode_entry, encode_exit}
use gservices.Message.Layout.{decode_entry-encode_entry}
use gservices.Access.{AccessPoint, send_request, send_with_buffer, receive_reply, add_service}
use gservices.Access.Lock.{send_unregistered}
use gservices.Access.Register.{add_service_accepts, registration_response, registration_bytes}
use gservices.LocalAccess.{LocalLink, local_transport}
use gservices.Access.Sending.{request}
use gservices.LocalAccess.Framing.{after_sending, send_with_buffer_sends}
use gservices.LocalAccess.Receive.{receive_reply_lem}
use gservices.Tests.{strict, header, parameters, buffer, arrivals, room, client, pipe, pipe_client}

readn_delivers_example :
    (rest : List ReadAnswer) × (readn arrivals 18
      ≡ some (record { status = ret 18; stored = take 18 (stream arrivals); rest = rest }))
    × (stream rest ≡ drop 18 (stream arrivals))
    × (ending rest ≡ ending arrivals)
readn_delivers_example = readn_delivers arrivals 18 (omega arith)

-- The connection is reset after two bytes.
readn-Stops_example :
    (rest : List ReadAnswer) × (readn (segment 4 (5 ∷ []) ∷ failed ∷ []) 3
      ≡ some (record { status = minus_one; stored = 4 ∷ 5 ∷ []; rest = rest }))
readn-Stops_example = readn-Stops (segment 4 (5 ∷ []) ∷ failed ∷ []) 3 (omega arith)

writen_sends_example :
    (rest : List WriteAnswer) × (writen room (stream arrivals)
      ≡ some (record { status = ret 22; sent = stream arrivals; rest = rest }))
writen_sends_example = writen_sends room (stream arrivals) (omega arith)

-- A reply with one byte behind its header.
abbrev reply_header : MsgExitHeader
reply_header = record {
  deamon_response_code = 3;
  response_size = 17;
  invocation_size = 0;
  response_code = 5;
}

send_with_buffer_sends_example :
    (rest : List WriteAnswer) × (send_with_buffer
        (local_transport strict)
        strict
        (request strict header parameters (9 ∷ []))
        (buffer ++ 4 ∷ [])
        3
        client
      ≡ (
        done tt,
        after_sending strict header parameters
            (9 ∷ [])
            (encode_entry header ++ (parameters ++ buffer))
            rest
            client,
      ))
send_with_buffer_sends_example =
    send_with_buffer_sends strict header parameters (9 ∷ []) buffer (4 ∷ []) client refl
      (65 ∷ [], refl)
      (record { words = omega arith; parameters_counted = refl; total_fits = omega arith })
      (omega arith)

-- A client that waits for a reply, which comes in two pieces.
abbrev waiting : AccessPoint LocalLink
waiting = record client {
  locked = true;
  link = record (client.link) {
    reads =
        segment 3 (0 ∷ 0 ∷ 0 ∷ 17 ∷ 0 ∷ 0 ∷ [])
        ∷ segment 0 (0 ∷ 0 ∷ 0 ∷ 0 ∷ 5 ∷ 0 ∷ 0 ∷ 0 ∷ 42 ∷ [])
        ∷ [];
  };
}

receive_reply_lem_example :
    (rest : List ReadAnswer) × (receive_reply
        (local_transport strict)
        strict
        (replicate 17 0)
        17
        waiting
      ≡ (
        done (encode_exit reply_header ++ 42 ∷ []),
        record waiting { locked = false; link = record (waiting.link) { reads = rest } },
      ))
    × (stream rest ≡ [])
unfolding encode_exit gservices.Wire.word
receive_reply_lem_example =
    receive_reply_lem strict reply_header (42 ∷ []) [] (replicate 17 0) waiting (omega arith) refl
      refl

abbrev unregistered : MsgEntryHeader
unregistered = record header { client_service_code = 1 }

send_unregistered_example :
    (send_request pipe strict (encode_entry unregistered ++ parameters) (pipe_client [])
      ≡ (thrown not_found, record (pipe_client []) { locked = true }))
    × ((later : List ℕ)
        → send_request pipe strict later
            (send_request pipe strict (encode_entry unregistered ++ parameters) (pipe_client [])).1
          ≡ (blocked, record (pipe_client []) { locked = true }))
send_unregistered_example =
    send_unregistered pipe strict (encode_entry unregistered ++ parameters) parameters unregistered
      (pipe_client []) refl (decode_entry-encode_entry unregistered parameters (omega arith)) refl
      refl

abbrev refusal : List ℕ
refusal = encode_exit (registration_response service_not_found)

-- The server says that it has no such service.
add_service_accepts_example :
    add_service pipe strict 1 (66 ∷ []) (replicate 80 0) (pipe_client refusal) ≡ (
      done tt,
      record (pipe_client refusal) {
        link = ([], registration_bytes 1 ((66 ∷ []) ++ (0 ∷ drop 2 (replicate 80 0))));
        table = some (65 ∷ []) ∷ some (66 ∷ []) ∷ [];
        locked = false;
      },
    )
unfolding encode_exit encode_entry gservices.Wire.word
add_service_accepts_example =
    add_service_accepts pipe strict service_not_found 1 (66 ∷ []) (replicate 80 0)
      (pipe_client refusal) 96
      (refusal, registration_bytes 1 ((66 ∷ []) ++ (0 ∷ drop 2 (replicate 80 0))))
      ([], registration_bytes 1 ((66 ∷ []) ++ (0 ∷ drop 2 (replicate 80 0)))) refl (omega arith)
      (omega arith) refl (omega arith) (omega arith) refl refl
