-- ===== src/Session.antt =====
-- A client of include/local_access_point.C and a server of include/local_reception_point.C on the
-- two ends of a socket.
pub mod Reply
pub mod Call
pub mod Shutdown
pub mod RemoteCall
use gservices.Base.{
  ℕ, ◌+◌, ◌≤◌, ◌≡◌, refl, List, [], ◌∷◌, ◌++◌, some, false, Aleph, done, length, ap, ◌∙◌,
}
use gservices.Readwrite.Output.{capacity}
use gservices.Readwrite.Stream.{stream}
use gservices.Message.{MsgEntryHeader, encode_entry, header_size}
use gservices.Access.{AccessPoint, send_with_buffer}
use gservices.Reception.{ReceptionPoint}
use gservices.LocalAccess.{LocalLink, local_transport}
use gservices.Access.Sending.{MaySend, RequestFits, request, reported-state}
use gservices.LocalAccess.Framing.{after_sending, send_with_buffer_sends}
use gservices.LocalReception.{Sockets, Blocks, read_request, new_node}
use gservices.LocalReception.Framing.{read_request_frames}

module _ (k : Aleph) (h : MsgEntryHeader) (parameters beyond buffer unsent later : List ℕ) where
  -- If a client may send the message, its header counts the parameters and the buffer, and the
  -- bytes that it has sent are those that the server's socket delivers, then the server takes from
  -- the socket the header, the parameters and the buffer as the client had them in memory, and
  -- nothing of what lies behind them; the next message starts where this one ends.
  pub send_then_read :
      (client : AccessPoint LocalLink) (server : ReceptionPoint Sockets) (fd : ℕ)
      (entry_msg : List ℕ) (blocks : Blocks)
      → client.locked ≡ false
      → client.link.sent ≡ []
      → MaySend client.table h
      → RequestFits h parameters buffer
      → h.invocation_size ≡ length buffer
      → header_size + length parameters + length buffer ≤ capacity client.link.writes
      → length entry_msg ≡ header_size
      → stream (server.link.reads fd)
        ≡ (send_with_buffer
            (local_transport k)
            k
            (request k h parameters beyond)
            (buffer ++ unsent)
            (length buffer)
            client).1.link.sent
          ++ later
      → (l : Sockets) × (read_request fd entry_msg blocks server ≡ (
        done (encode_entry h, some (encode_entry h ++ (parameters ++ buffer))),
        record server { link = l; binding_list = new_node fd blocks ∷ server.binding_list },
      ))
        × (stream (l.reads fd) ≡ later)
  send_then_read client server fd entry_msg blocks free fresh may fit counted room sized carried =
      let (rest, sends) =
        send_with_buffer_sends k h parameters beyond buffer unsent client free may fit room in
      let sent : (send_with_buffer (local_transport k) k (request k h parameters beyond)
            (buffer ++ unsent) (length buffer) client).1.link.sent
          ≡ encode_entry h ++ (parameters ++ buffer) =
        ap (λ x. x.1.link.sent) sends
        ∙ ap (λ s. s.link.sent)
            (reported-state k (header_size + length parameters + length buffer) (
              after_sending k h parameters beyond (encode_entry h ++ (parameters ++ buffer)) rest
                client))
        ∙ rw fresh refl in
      read_request_frames fd h parameters buffer later blocks entry_msg server sized
        (record {
          words = fit.words;
          parameters_counted = fit.parameters_counted;
          invocation_counted = counted;
          total_fits = fit.total_fits;
        })
        (carried ∙ ap (λ (bs : List ℕ). bs ++ later) sent)
