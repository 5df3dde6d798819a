-- ===== src/Session/Call.antt =====
-- A call over include/local_access_point.C and include/local_reception_point.C: the request of a
-- client, its service at the server, and the reply.
use gservices.Base.{
  ℕ, ◌+◌, ◌^◌, ◌<◌, ◌≤◌, ◌≡◌, ◌==◌, refl, ap, ◌∙◌, List, [], ◌++◌, true, false, Aleph, Outcome,
  done, arith, length,
}
use gservices.Readwrite.{Ssize, ret, minus_one, ReadAnswer}
use gservices.Readwrite.Output.{capacity}
use gservices.Readwrite.Stream.{stream}
use gservices.Message.{MsgEntryHeader, MsgExitHeader, header_size, encode_entry}
use gservices.Message.Layout.{ExitFits}
use gservices.Access.{AccessPoint, send_with_buffer, receive_reply}
use gservices.Reception.{Service}
use gservices.Binding.Responds.{reply_bytes}
use gservices.Dispatcher.{Server}
use gservices.LocalAccess.{LocalLink, local_transport}
use gservices.Access.Sending.{MaySend, RequestFits, request, reported_small}
use gservices.LocalAccess.Framing.{after_sending, send_with_buffer_sends}
use gservices.LocalAccess.Receive.{receive_reply_lem}
use gservices.LocalReception.{Sockets, Blocks}
use gservices.LocalReception.Framing.{PartsFit}
use gservices.LocalReception.Quiet.{update-same}
use gservices.LocalEngine.{Engine, serve, none_left}
use gservices.LocalEngine.Answers.{AnswersRequest, serve_answers}

none_left-point : (e : Engine) (n : Ssize) → e.nready ≡ n → (none_left e).1.point ≡ e.point
unfolding none_left
none_left-point e minus_one h = rw h refl
none_left-point e (ret n) h = rw h refl

-- `send` with a buffer.
abbrev pub sending :
    Aleph
    → MsgEntryHeader
    → List ℕ
    → List ℕ
    → List ℕ
    → List ℕ
    → AccessPoint LocalLink
    → Outcome (Unit {0}) × AccessPoint LocalLink
sending k h parameters beyond buffer unsent =
    send_with_buffer (local_transport k) k (request k h parameters beyond) (buffer ++ unsent)
      (length buffer)

module _ (k : Aleph) (h : MsgEntryHeader) (parameters buffer later : List ℕ)
    (header : MsgExitHeader) (body after : List ℕ) (server : Server Sockets) (fd : ℕ) (b : Blocks)
    (f : Service) where
  -- The reply to a client that has sent the whole request, once the engine has come to its socket.
  pub reply_arrives :
      (i : ℕ) (waiting : AccessPoint LocalLink) (e : Engine) (reply : List ℕ)
      → waiting.link.sent ≡ encode_entry h ++ (parameters ++ buffer)
      → PartsFit h parameters buffer
      → length e.entry_msg ≡ header_size
      → AnswersRequest k header body server fd b h parameters buffer later f e.point
      → e.point.link.sent fd ≡ []
      → header_size + length body ≤ capacity (e.point.link.writes fd)
      → header_size + length body < 2 ^ 31
      → header.deamon_response_code < 2 ^ 32
      → header.response_code < 2 ^ 32
      → length reply ≡ header_size + length body
      → stream (e.point.link.reads fd) ≡ waiting.link.sent ++ later
      → stream waiting.link.reads ≡ (serve server k i fd b e).1.point.link.sent fd ++ after
      → (rest : List ReadAnswer) × (receive_reply
            (local_transport k)
            k
            reply
            (header_size + length body)
            waiting
          ≡ (
            done (reply_bytes header body 0),
            record waiting { locked = false; link = record (waiting.link) { reads = rest } },
          ))
        × (stream rest ≡ after)
        × (stream ((serve server k i fd b e).1.point.link.reads fd) ≡ later)
  reply_arrives i waiting e reply sent fit sized a quiet room small code status sized' carried
        back =
      let (l, served, wrote, left) =
        serve_answers k header body server fd b h parameters buffer later f i e sized fit
          (carried ∙ ap (λ (bs : List ℕ). bs ++ later) sent) a room small in
      let size : ℕ = header_size + length body in
      let filled : MsgExitHeader = record header { response_size = size; invocation_size = 0 } in
      let same : (serve server k i fd b e).1.point.link ≡ l =
        ap (λ x. x.1.point.link) served ∙ ap (λ p. p.link) (none_left-point _ _ refl) in
      let replied : (serve server k i fd b e).1.point.link.sent fd ≡ reply_bytes header body 0 =
        ap (λ (x : Sockets). x.sent fd) same
        ∙ ap (λ (g : ℕ → List ℕ). g fd) wrote
        ∙ update-same e.point.link.sent fd (e.point.link.sent fd ++ reply_bytes header body 0)
        ∙ rw quiet refl in
      let delivered : stream waiting.link.reads ≡ reply_bytes header body 0 ++ after =
        back ∙ ap (λ (bs : List ℕ). bs ++ after) replied in
      let fits : ExitFits filled = omega arith in
      let (rest, received, left') =
        receive_reply_lem k filled body after reply waiting fits sized' delivered in
      let equal : (size == size) ≡ true = ground arith in
      (rest, received ∙ rw equal refl, left', ap (λ (x : Sockets). stream (x.reads fd)) same ∙ left)

  module _ (beyond unsent : List ℕ) where
    -- A client may send a request of less than 2 ^ 31 bytes, whose header counts its parameters and
    -- its buffer; the server's service for it answers at once with a reply of less than 2 ^ 31 bytes;
    -- the kernel takes both messages, and each socket delivers what the other end has sent. Then the
    -- client that sends, and receives after the engine has come to its socket, gets exactly the
    -- reply of the service with its size filled in, and its mutex is free; behind the reply and
    -- behind the request both sockets are as far as the next messages.
    pub call_answered :
        (i : ℕ) (client : AccessPoint LocalLink) (e : Engine) (reply : List ℕ)
        → client.locked ≡ false
        → client.link.sent ≡ []
        → MaySend client.table h
        → RequestFits h parameters buffer
        → h.invocation_size ≡ length buffer
        → header_size + length parameters + length buffer < 2 ^ 31
        → header_size + length parameters + length buffer ≤ capacity client.link.writes
        → length e.entry_msg ≡ header_size
        → AnswersRequest k header body server fd b h parameters buffer later f e.point
        → e.point.link.sent fd ≡ []
        → header_size + length body ≤ capacity (e.point.link.writes fd)
        → header_size + length body < 2 ^ 31
        → header.deamon_response_code < 2 ^ 32
        → header.response_code < 2 ^ 32
        → length reply ≡ header_size + length body
        → stream (e.point.link.reads fd)
          ≡ (sending k h parameters beyond buffer unsent client).1.link.sent ++ later
        → stream client.link.reads ≡ (serve server k i fd b e).1.point.link.sent fd ++ after
        → ((sending k h parameters beyond buffer unsent client).0 ≡ done tt)
          × (rest : List ReadAnswer) × (receive_reply
                (local_transport k)
                k
                reply
                (header_size + length body)
                (sending k h parameters beyond buffer unsent client).1
              ≡ (
                done (reply_bytes header body 0),
                record ((sending k h parameters beyond buffer unsent client).1) {
                  locked = false;
                  link = record ((sending k h parameters beyond buffer unsent client).1.link) {
                    reads = rest;
                  };
                },
              ))
          × (stream rest ≡ after)
          × (stream ((serve server k i fd b e).1.point.link.reads fd) ≡ later)
    call_answered i client e reply free fresh may fit counted short room sized a quiet room' small
          code status sized' carried back =
        let (left, sends') =
          send_with_buffer_sends k h parameters beyond buffer unsent client free may fit room in
        let sends =
          sends'
          ∙ reported_small k (header_size + length parameters + length buffer)
              (after_sending k h parameters beyond (encode_entry h ++ (parameters ++ buffer)) left
                client)
              short in
        let reads : (sending k h parameters beyond buffer unsent client).1.link.reads
            ≡ client.link.reads =
          rw sends refl in
        let (rest, received, behind, behind') =
          reply_arrives i (sending k h parameters beyond buffer unsent client).1 e reply
            (rw sends rw fresh refl)
            (record {
              words = fit.words;
              parameters_counted = fit.parameters_counted;
              invocation_counted = counted;
              total_fits = fit.total_fits;
            })
            sized a quiet room' small code status sized' carried
            (ap (λ (x : List ReadAnswer). stream x) reads ∙ back) in
        (ap (λ x. x.0) sends, rest, received, behind, behind')
