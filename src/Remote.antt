-- ===== src/Remote.antt =====
-- include/remote_access_point.C and include/remote_reception_point.C: client and server over the
-- IPC of another library, whose calls are parameters.
pub mod Serving
pub mod Life
pub mod Answers
use gservices.Base.{
  ℕ, ◌+◌, ◌==◌, if◌then◌else◌, ltb, leb, List, [], ◌∷◌, ◌++◌, Option, none, some, Bool, true, false,
  M, Aleph, Outcome, done, stopped, blocked, use_after_free, out_of_bounds, pure, get, stop, assert,
  ◌>>=◌, ◌>>◌, length, take, drop,
}
use gservices.Readwrite.{Ssize, ret, minus_one}
use gservices.Message.{
  ServiceCode, shutdown, service_of, header_size, entry_at, encode_exit, encode_entry,
  shutdown_response, shutdown_message,
}
use gservices.Access.{Transport, AccessPoint, access_point, overwrite}
use gservices.Reception.{BindingNode, ReceptionPoint, via, insert_next, binding_list_freeing_fct}
use gservices.Binding.{is_failure}
use gservices.Dispatcher.{Server, dispatcher}

-- `IpcRemoteClient` over the state of a connection: what a reply holds, and the sending of a
-- request.
pub record IpcClient (L : Type 0) : Type 0 where
  pub receive_reply : M L (List ℕ)
  pub send_request : List ℕ → M L (Unit {0})

abbrev pub buffer_size : ℕ
buffer_size = 4096

-- `contents` is what the buffer of 4096 bytes on the stack held.
module _ {L : Type 0} (ipc : IpcClient L) (k : Aleph) (contents : List ℕ) where
  -- `readn_f`: the reply goes into the buffer, of which `n` bytes are copied.
  unfoldable pub readn_f : ℕ → M L (Ssize × List ℕ)
  readn_f n = do
    body ← ipc.receive_reply
    assert k (n == length body)
    elim (leb n buffer_size) [
      | true ↦ pure (ret (length body), take n (overwrite body contents))
      | false ↦ stop out_of_bounds
    ]

  -- `writen_f`
  unfoldable pub writen_f : List ℕ → M L Ssize
  writen_f out_buffer = do ipc.send_request out_buffer; pure (ret (length out_buffer))

  abbrev pub remote_transport : Transport L
  remote_transport = record { readn = readn_f; writen = writen_f }

-- A request that `receive_request` returns: its id, its body, and the addresses that the engine
-- then gets for it.
pub record Incoming : Type 0 where
  pub id : ℕ
  pub body : List ℕ
  pub message : ℕ
  pub binding_point : ℕ
  pub node : ℕ

-- The new entry of the list: the service has not been accomplished.
abbrev pub new_node : Incoming → BindingNode
new_node m = record {
  node = m.node;
  binding_point = m.binding_point;
  message = m.message;
  still_busy = true;
  request_message = none;
  peer = m.id;
}

module _ {L : Type 0} (send_reply : List ℕ → ℕ → M L (Unit {0})) where
  -- The early reply to a request for the shutdown. The code is read from the buffer, which holds
  -- the body and then what earlier messages left.
  unfoldable pub reply_to_shutdown : List ℕ → ℕ → M (ReceptionPoint L) (Unit {0})
  unfolding entry_at
  reply_to_shutdown message_buffer id = do
    (header, _) ← entry_at message_buffer
    elim (service_of header.deamon_service_code) [
      | none ↦ pure tt
      | some code ↦ elim code [
        | shutdown ↦ via (send_reply (encode_exit shutdown_response) id)
        | _ ↦ pure tt
      ]
    ]

module _ {L : Type 0} (send_reply : List ℕ → ℕ → M L (Unit {0})) (server : Server L)
    (k : Aleph) where
  -- The body of the loop of `deamon_engine`; the result is what the buffer holds. The buffer on
  -- the stack has 4096 bytes: `receive_request` stores no longer body there.
  unfoldable pub take_request : List ℕ → Incoming → M (ReceptionPoint L) (List ℕ)
  take_request message_buffer m =
      if leb (length m.body) buffer_size
      then (do
        reply_to_shutdown send_reply (overwrite m.body message_buffer) m.id
        insert_next (new_node m)
        binding_list_freeing_fct
        dispatcher server k m.binding_point m.message m.body
        pure (overwrite m.body message_buffer))
      else stop out_of_bounds

  -- `deamon_engine` for the requests that are given; after them `receive_request` waits.
  unfoldable pub deamon_engine : List ℕ → List Incoming → M (ReceptionPoint L) (Unit {0})
  deamon_engine message_buffer [] s = if s.is_shutdown then (done tt, s) else (blocked, s)
  deamon_engine message_buffer (m ∷ ms) s =
      if s.is_shutdown
      then (done tt, s)
      else (do contents ← take_request message_buffer m; deamon_engine contents ms) s
