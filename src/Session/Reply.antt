-- ===== src/Session/Reply.antt =====
-- A reply of include/local_binding.C, from the server to the client that waits for it.
use gservices.Base.{
  ℕ, ◌+◌, ◌^◌, ◌<◌, ◌≤◌, ◌≡◌, ◌==◌, refl, ap, ◌∙◌, List, [], ◌++◌, some, true, false, Aleph, done,
  arith, length,
}
use gservices.Readwrite.{ret, ReadAnswer}
use gservices.Readwrite.Output.{capacity}
use gservices.Readwrite.Stream.{stream}
use gservices.Message.{MsgExitHeader, header_size}
use gservices.Message.Layout.{ExitFits}
use gservices.Access.{AccessPoint, receive_reply}
use gservices.Reception.{BindingNode, ReceptionPoint}
use gservices.Binding.{on_link, find_binding, local_respond, is_failure}
use gservices.Binding.Responds.{reply_bytes, length-reply_bytes, answered, local_respond_writes}
use gservices.LocalAccess.{LocalLink, local_transport}
use gservices.LocalAccess.Receive.{receive_reply_lem}
use gservices.LocalReception.{Sockets, socket_writen}
use gservices.LocalReception.Quiet.{socket_writen_sends, update-same}

module _ (k : Aleph) (header : MsgExitHeader) (body later : List ℕ) where
  -- The binding of a request is in the server's list, the codes are 32-bit words, the reply is
  -- smaller than 2 ^ 31, the kernel takes the reply whole, and the bytes that the server has sent
  -- on the binding's socket are those that the client's socket delivers. Then the server's
  -- `respond` returns the number of bytes, and the client that waits takes exactly the reply of the
  -- service with its size filled in, whatever the object for it held, and releases the mutex; the
  -- next reply starts where this one ends.
  pub respond_then_receive :
      (binding : ℕ) (b : BindingNode) (server : ReceptionPoint Sockets)
      (client : AccessPoint LocalLink) (reply : List ℕ)
      → find_binding binding server.binding_list ≡ some b
      → server.link.sent b.peer ≡ []
      → header_size + length body ≤ capacity (server.link.writes b.peer)
      → header.deamon_response_code < 2 ^ 32
      → header.response_code < 2 ^ 32
      → header_size + length body < 2 ^ 31
      → length reply ≡ header_size + length body
      → stream client.link.reads
        ≡ (local_respond
              (on_link socket_writen)
              k
              binding
              header
              body
              (header_size + length body)
              server).1.link.sent
            b.peer
          ++ later
      → ((local_respond
            (on_link socket_writen)
            k
            binding
            header
            body
            (header_size + length body)
            server).0
          ≡ done (ret (header_size + length body)))
        × (rest : List ReadAnswer) × (receive_reply
              (local_transport k)
              k
              reply
              (header_size + length body)
              client
            ≡ (
              done (reply_bytes header body 0),
              record client { locked = false; link = record (client.link) { reads = rest } },
            ))
        × (stream rest ≡ later)
  respond_then_receive binding b server client reply found fresh room code_small status_small small
        sized carried =
      let message : List ℕ = reply_bytes header body 0 in
      let counted = length-reply_bytes header body 0 in
      let (t, wrote, everywhere, _) =
        socket_writen_sends b.peer message server.link (omega arith) in
      let sent : t.sent b.peer ≡ server.link.sent b.peer ++ message =
        ap (λ (f : ℕ → List ℕ). f b.peer) everywhere
        ∙ update-same server.link.sent b.peer (server.link.sent b.peer ++ message) in
      let responds =
        local_respond_writes socket_writen k binding header body server b (ret (length message)) t
          found wrote in
      let filled : MsgExitHeader = record header {
        response_size = header_size + length body;
        invocation_size = 0;
      } in
      let size : ℕ = header_size + length body in
      let after : ReceptionPoint Sockets = record server {
        link = t;
        binding_list = answered binding server.binding_list;
      } in
      let good : is_failure (ret (length message)) ≡ false = ground arith in
      let status : ret (length message) ≡ ret size = ap ret counted in
      let run : local_respond (on_link socket_writen) k binding header body size server
          ≡ (done (ret size), after) =
        responds ∙ rw (good, status) refl in
      let bytes : (local_respond (on_link socket_writen) k binding header body size
              server).1.link.sent
            b.peer
          ≡ message =
        rw run (sent ∙ rw fresh refl) in
      let fits : ExitFits filled = omega arith in
      let (rest, received, left) =
        receive_reply_lem k filled body later reply client fits sized
          (carried ∙ ap (λ (x : List ℕ). x ++ later) bytes) in
      let same : (size == size) ≡ true = ground arith in
      (ap (λ x. x.0) run, rest, received ∙ rw same refl, left)
