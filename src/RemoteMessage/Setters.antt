-- ===== src/RemoteMessage/Setters.antt =====
-- `set_reply_type` of Invocation_Reply_Msg in include/remote_message_header.H.
use gservices.Base.{ℕ, ◌^◌, ◌≡◌, ◌≤◌, ◌<◌, refl, List, some, arith, length}
use gservices.Message.{header_size}
use gservices.Object.{word_type, end_of}
use gservices.Object.Members.{member-put_self, member-put_ne}
use gservices.LocalMessage.{AlephTypes}
use gservices.LocalMessage.Transfer.{word_type-IsStored}
use gservices.RemoteMessage.{InvocationReplyType, reply_type_value}
use gservices.RemoteMessage.Single.{
  invocation_reply_msg_shapes, invocation_reply_msg_reply_size, invocation_reply_msg_binding,
  invocation_reply_msg_message_id, invocation_reply_msg_reply_type, set_reply_type,
}

module _ (t : AlephTypes) where
  -- A reply's memory holds its members. After `set_reply_type`, `get_reply_type` gives the new
  -- type, and the size, the binding and the message's id are read as before.
  pub set_reply_type_lem :
      (memory : List ℕ) (new : InvocationReplyType)
      → end_of header_size (invocation_reply_msg_shapes t) ≤ length memory
      → (invocation_reply_msg_reply_type t (set_reply_type t memory new)
          ≡ some (reply_type_value new))
        × (invocation_reply_msg_reply_size t (set_reply_type t memory new)
            ≡ invocation_reply_msg_reply_size t memory)
        × (invocation_reply_msg_binding t (set_reply_type t memory new)
            ≡ invocation_reply_msg_binding t memory)
        × (invocation_reply_msg_message_id t (set_reply_type t memory new)
            ≡ invocation_reply_msg_message_id t memory)
  unfolding set_reply_type invocation_reply_msg_reply_type invocation_reply_msg_reply_size
      invocation_reply_msg_binding invocation_reply_msg_message_id
  set_reply_type_lem memory new room =
      let small : reply_type_value new < 2 ^ 32 = ground arith in
      let good = word_type-IsStored (reply_type_value new) small in
      (
        member-put_self word_type _ 3 (reply_type_value new) memory good refl room,
        member-put_ne word_type _ 3 (reply_type_value new) memory good refl room word_type 0 refl
            (omega arith),
        member-put_ne word_type _ 3 (reply_type_value new) memory good refl room t.binding 1 refl
            (omega arith),
        member-put_ne word_type _ 3 (reply_type_value new) memory good refl room t.message_id 2 refl
            (omega arith),
      )
