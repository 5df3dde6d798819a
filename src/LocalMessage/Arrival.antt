-- ===== src/LocalMessage/Arrival.antt =====
-- Srv_Invoke_Reply_CallMsg of include/local_message_header.H, from a container to its locator.
use gservices.Base.{
  ℕ, ◌+◌, ◌^◌, ◌≡◌, ◌≤◌, ◌<◌, refl, List, [], ◌∷◌, ◌++◌, some, false, Aleph, done, arith, length,
  get_elem?,
}
use gservices.Wire.{word, length-word}
use gservices.Readwrite.Output.{capacity}
use gservices.Readwrite.Stream.{stream}
use gservices.Message.{header_size, encode_entry}
use gservices.Access.{AccessPoint, send_with_buffer}
use gservices.Reception.{ReceptionPoint}
use gservices.LocalAccess.{LocalLink, local_transport}
use gservices.LocalReception.{Sockets, Blocks, read_request, new_node}
use gservices.Object.{stored, sizeof, word_type}
use gservices.Object.Arrival.{invocation_header, object, object_arrives, member-object}
use gservices.LocalMessage.{AlephTypes, entry_value, server_invoke_reply}
use gservices.LocalMessage.Calls.{
  srv_invoke_reply_call_msg, srv_invoke_reply_call_msg_shapes, srv_invoke_reply_call_msg_message_id,
  srv_invoke_reply_call_msg_binding, srv_invoke_reply_call_msg_reply_size,
  srv_invoke_reply_call_msg_replying_container_id,
}
use gservices.LocalMessage.Transfer.{IsAlephTypes, word_type-IsStored, call_message-made}

module _ (t : AlephTypes) where
  -- What the server's getters find in a message.
  abbrev pub Reply : t.MessageId → t.Binding → t.ContainerId → ℕ → List ℕ → Type 0
  Reply msg_id bind cnt_id n message =
      (srv_invoke_reply_call_msg_message_id t message ≡ some msg_id)
      × (srv_invoke_reply_call_msg_binding t message ≡ some bind)
      × (srv_invoke_reply_call_msg_replying_container_id t message ≡ some cnt_id)
      × (srv_invoke_reply_call_msg_reply_size t message ≡ some n)

  -- The object of such a message.
  abbrev pub reply_object : t.MessageId → t.Binding → t.ContainerId → List ℕ → List ℕ → List ℕ
  reply_object msg_id bind cnt_id reply memory =
      object (entry_value server_invoke_reply) (length memory) (srv_invoke_reply_call_msg_shapes t)
        (t.message_id.bytes msg_id
          ∷ t.binding.bytes bind
          ∷ t.container_id.bytes cnt_id
          ∷ word (length reply)
          ∷ [])
        memory reply

module _ (t : AlephTypes) (laws : IsAlephTypes t) where
  -- Srv_Invoke_Reply_CallMsg from a container to its locator. The message is constructed in memory
  -- of exactly its size, for a reply of as many bytes as the container sends with it; the container
  -- has registered the service, the sizes fit, the kernel takes the message whole, and the bytes
  -- that were sent are those that the locator's socket delivers. Then the constructor returns the
  -- object, and the locator takes one message from the socket: that object with the reply behind
  -- it, whose getters give the message's id, the binding, the container and the size that the
  -- constructor was given.
  pub srv_invoke_reply_call_msg_arrives :
      (k : Aleph) (msg_id : t.MessageId) (bind : t.Binding) (cnt_id : t.ContainerId)
      (reply : List ℕ) (memory unsent later : List ℕ) (client : AccessPoint LocalLink)
      (server : ReceptionPoint Sockets) (fd : ℕ) (entry_msg : List ℕ) (blocks : Blocks)
      (name : List ℕ) {S : Type 0} (s : S)
      → length memory ≡ sizeof (srv_invoke_reply_call_msg_shapes t)
      → length memory + length reply < 2 ^ 32
      → client.locked ≡ false
      → client.link.sent ≡ []
      → get_elem? client.table (entry_value server_invoke_reply) ≡ some (some name)
      → length memory + length reply ≤ capacity client.link.writes
      → length entry_msg ≡ header_size
      → stream (server.link.reads fd)
        ≡ (send_with_buffer
            (local_transport k)
            k
            (reply_object t msg_id bind cnt_id reply memory)
            (reply ++ unsent)
            (length reply)
            client).1.link.sent
          ++ later
      → (srv_invoke_reply_call_msg t k msg_id bind cnt_id (length reply) memory s
          ≡ (done (reply_object t msg_id bind cnt_id reply memory), s))
        × (l : Sockets) × (read_request fd entry_msg blocks server ≡ (
          done (
            encode_entry
                (invocation_header (entry_value server_invoke_reply) (length memory) reply),
            some (reply_object t msg_id bind cnt_id reply memory ++ reply),
          ),
          record server { link = l; binding_list = new_node fd blocks ∷ server.binding_list },
        ))
        × (stream (l.reads fd) ≡ later)
        × Reply t msg_id bind cnt_id
            (length reply)
            (reply_object t msg_id bind cnt_id reply memory ++ reply)
  unfolding srv_invoke_reply_call_msg srv_invoke_reply_call_msg_message_id
      srv_invoke_reply_call_msg_binding srv_invoke_reply_call_msg_replying_container_id
      srv_invoke_reply_call_msg_reply_size
  srv_invoke_reply_call_msg_arrives k msg_id bind cnt_id reply memory unsent later client server fd
        entry_msg blocks name s whole total free fresh registered room sized carried =
      let cs : List (List ℕ) =
        t.message_id.bytes msg_id
        ∷ t.binding.bytes bind
        ∷ t.container_id.bytes cnt_id
        ∷ word (length reply)
        ∷ [] in
      let (run, ready) =
        call_message-made k 14 (srv_invoke_reply_call_msg_shapes t) cs memory s (omega arith)
          (omega arith)
          (
            laws.message_id.length-bytes msg_id,
            (
              laws.binding.length-bytes bind,
              (laws.container_id.length-bytes cnt_id, (length-word (length reply), tt)),
            ),
          )
          whole in
      let (l, reads, left) =
        object_arrives 14 (length memory) (srv_invoke_reply_call_msg_shapes t) cs memory reply ready
          refl k unsent later client server fd entry_msg blocks name free fresh registered total
          room sized carried in
      (
        rw run refl,
        l,
        reads,
        left,
        (
          member-object 14 _ _ cs memory reply ready refl t.message_id 0 msg_id
              (stored laws.message_id msg_id) refl refl,
          member-object 14 _ _ cs memory reply ready refl t.binding 1 bind
              (stored laws.binding bind) refl refl,
          member-object 14 _ _ cs memory reply ready refl t.container_id 2 cnt_id
              (stored laws.container_id cnt_id) refl refl,
          member-object 14 _ _ cs memory reply ready refl word_type 3 (length reply)
              (word_type-IsStored (length reply) (omega arith)) refl refl,
        ),
      )
