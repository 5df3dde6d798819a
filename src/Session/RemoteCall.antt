-- ===== src/Session/RemoteCall.antt =====
-- A call over include/remote_access_point.C and include/remote_reception_point.C: the request of a
-- client, its service at the server, and the reply, as the IPC carries them.
use gservices.Base.{
  ℕ, ◌+◌, ◌^◌, ◌<◌, ◌≤◌, ◌≡◌, refl, ap, ◌∙◌, List, ◌++◌, some, true, false, M, Aleph, Outcome, done,
  arith, length, length-append, drop_ge, append-nil, get_elem?,
}
use gservices.Readwrite.{ret}
use gservices.Message.{
  MsgEntryHeader, MsgExitHeader, send, service_value, header_size, encode_entry,
}
use gservices.Message.Layout.{length-encode_entry, ExitFits, decode_exit-encode_exit}
use gservices.Access.{AccessPoint, send_with_buffer, receive_reply, overwrite}
use gservices.Access.Sending.{
  MaySend, RequestFits, request, reported_small, send_with_buffer_writes,
}
use gservices.Reception.{Service, ReceptionPoint}
use gservices.Binding.Responds.{reply_bytes, length-reply_bytes}
use gservices.Dispatcher.{Server}
use gservices.Remote.{IpcClient, Incoming, buffer_size, remote_transport, writen_f, take_request}
use gservices.Remote.Serving.{remote_readn_lem}
use gservices.Remote.Answers.{AnswersRequest, remote_answer, take_request_answers}

module _ {L R : Type 0} (ipc : IpcClient L) (send_reply : List ℕ → ℕ → M R (Unit {0}))
    (requested : L → List ℕ) (replied : R → ℕ → List ℕ) where
  -- The IPC takes every message of at most 4096 bytes; `requested` and `replied` are the messages that it carries.
  pub record Carries : Type 0 where
    pub requests :
        (message : List ℕ) (l : L)
        → length message ≤ buffer_size
        → (l' : L) × (ipc.send_request message l ≡ (done tt, l')) × (requested l' ≡ message)
    pub replies :
        (message : List ℕ) (id : ℕ) (r : R)
        → length message ≤ buffer_size
        → (r' : R) × (send_reply message id r ≡ (done tt, r')) × (replied r' id ≡ message)

module _ {L : Type 0} (ipc : IpcClient L) (k : Aleph) (memory : List ℕ) where
  -- A client that waits gets a reply of the size that it asks for.
  remote_receive_reply :
      (header : MsgExitHeader) (body reply : List ℕ) (s : AccessPoint L) (l : L)
      → k.assert_stops ≡ true
      → header_size + length body ≤ buffer_size
      → header.deamon_response_code < 2 ^ 32
      → header.response_code < 2 ^ 32
      → length reply ≡ header_size + length body
      → ipc.receive_reply s.link ≡ (done (reply_bytes header body 0), l)
      → receive_reply (remote_transport ipc k memory) k reply (header_size + length body) s
        ≡ (done (reply_bytes header body 0), record s { locked = false; link = l })
  unfolding receive_reply
  remote_receive_reply header body reply s l stops fits code status sized arrives =
      let size : ℕ = header_size + length body in
      let message : List ℕ = reply_bytes header body 0 in
      let filled : MsgExitHeader = record header { response_size = size; invocation_size = 0 } in
      let counted : length message ≡ size = length-reply_bytes header body 0 in
      let reads = remote_readn_lem ipc k memory size message s.link l stops fits arrives in
      let over : overwrite message reply ≡ message =
        rw (drop_ge (length message) reply (omega arith)) (append-nil message) in
      let fit : ExitFits filled = omega arith in
      let read = decode_exit-encode_exit filled body fit in
      ground (arith, reads, over, read, counted)

-- `send` with a buffer.
abbrev pub sending :
    {L : Type 0}
    → IpcClient L
    → Aleph
    → List ℕ
    → MsgEntryHeader
    → List ℕ
    → List ℕ
    → List ℕ
    → List ℕ
    → AccessPoint L
    → Outcome (Unit {0}) × AccessPoint L
sending ipc k memory h parameters beyond buffer unsent =
    send_with_buffer (remote_transport ipc k memory) k (request k h parameters beyond)
      (buffer ++ unsent) (length buffer)

module _ {L R : Type 0} (ipc : IpcClient L) (send_reply : List ℕ → ℕ → M R (Unit {0}))
    (requested : L → List ℕ) (replied : R → ℕ → List ℕ) (server : Server R) (k : Aleph)
    (h : MsgEntryHeader) (parameters beyond buffer unsent : List ℕ) (header : MsgExitHeader)
    (body memory contents : List ℕ) (m : Incoming) (f : Service) where
  -- The IPC takes every message of at most 4096 bytes, and carries to each end what the other has
  -- sent. A client may send a request of at most 4096 bytes; the server runs, and its service for the request answers at once with a reply of
  -- at most 4096 bytes. With ASSERT in force, the client sends, the engine takes the request and
  -- returns, and the client that receives gets exactly the reply of the service with its size
  -- filled in, and its mutex is free.
  pub remote_call_answered :
      (client : AccessPoint L) (s : ReceptionPoint R) (reply : List ℕ) (l : L)
      → Carries ipc send_reply requested replied
      → k.assert_stops ≡ true
      → client.locked ≡ false
      → MaySend client.table h
      → RequestFits h parameters buffer
      → header_size + length parameters + length buffer ≤ buffer_size
      → h.deamon_service_code ≡ service_value send
      → m.body ≡ requested (sending ipc k memory h parameters beyond buffer unsent client).1.link
      → s.is_shutdown ≡ false
      → s.registered_services ≡ s.number_of_services
      → get_elem? s.table h.client_service_code ≡ some (some f)
      → ((t : ReceptionPoint R)
          → server.service f.service_function m.binding_point m.body t
            ≡ remote_answer send_reply header body m.binding_point t)
      → header_size + length body ≤ buffer_size
      → header.deamon_response_code < 2 ^ 32
      → header.response_code < 2 ^ 32
      → length reply ≡ header_size + length body
      → ipc.receive_reply (sending ipc k memory h parameters beyond buffer unsent client).1.link
        ≡ (done (replied (take_request send_reply server k contents m s).1.link m.id), l)
      → ((sending ipc k memory h parameters beyond buffer unsent client).0 ≡ done tt)
        × ((take_request send_reply server k contents m s).0 ≡ done (overwrite m.body contents))
        × (receive_reply
              (remote_transport ipc k memory)
              k
              reply
              (header_size + length body)
              (sending ipc k memory h parameters beyond buffer unsent client).1
            ≡ (
              done (reply_bytes header body 0),
              record ((sending ipc k memory h parameters beyond buffer unsent client).1) {
                locked = false;
                link = l;
              },
            ))
  unfolding writen_f
  remote_call_answered client s reply l carries stops free may fit bounded code carried up all there
        answers small word word' sized back =
      let message : List ℕ = encode_entry h ++ (parameters ++ buffer) in
      let counted : length message ≡ header_size + length parameters + length buffer = omega (
        arith,
        length-append (encode_entry h) (parameters ++ buffer),
        length-append parameters buffer,
        length-encode_entry h,
      ) in
      let (l1, wrote, held) = carries.requests message client.link (omega arith) in
      let written : writen_f ipc k memory message client.link ≡ (done (ret (length message)), l1) =
        rw (writen_f, wrote) refl in
      let sends =
        send_with_buffer_writes (remote_transport ipc k memory) k h parameters beyond client buffer
          unsent (length message) l1 free may fit written
        ∙ reported_small k (length message) (record client { locked = true; link = l1 })
            (omega arith) in
      let whole : m.body ≡ message = carried ∙ rw sends held in
      let asked : AnswersRequest send_reply server header body m s = record {
        entry = h;
        rest = parameters ++ buffer;
        service = f;
        words = fit.words;
        is_request = whole;
        code = code;
        all = all;
        there = there;
        answers = answers;
      } in
      let (r, sent, kept') =
        carries.replies (reply_bytes header body 0) m.id s.link
          (omega (arith, length-reply_bytes header body 0)) in
      let taken =
        take_request_answers send_reply server header body k contents m s r up
          (omega (arith, ap length whole)) asked sent in
      let got : ipc.receive_reply
            (sending ipc k memory h parameters beyond buffer unsent client).1.link
          ≡ (done (reply_bytes header body 0), l) =
        back ∙ ap (λ (x : List ℕ). (done x, l)) (rw taken kept') in
      (
        ap (λ x. x.0) sends,
        ap (λ x. x.0) taken,
        remote_receive_reply ipc k memory header body reply
            (sending ipc k memory h parameters beyond buffer unsent client).1 l stops small word
            word' sized got,
      )
