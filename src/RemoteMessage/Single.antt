-- ===== src/RemoteMessage/Single.antt =====
-- The messages of include/remote_message_header.H that hold one object or one invocation.
use gservices.Base.{
  ℕ, ◌+◌, ◌*◌, List, [], ◌∷◌, Option, some, none, M, Aleph, pure, assert, ◌>>=◌, ◌>>◌, drop, leb,
  ltb, if◌then◌else◌,
}
use gservices.Wire.{word}
use gservices.Message.{header_size}
use gservices.Object.{
  Shape, shape, word_type, sizeof, end_of, offset_of, put, member, sized_message, call_message,
  fresh_call_message,
}
use gservices.LocalMessage.{AlephTypes}
use gservices.RemoteMessage.{
  remote_value, invocation_request, invocation_reply, gather_object_information, find_owner,
  locator_anounce, response_from_gather, receive_cache_in, remote_locator_call_code_last,
  InvocationReplyType, reply_type_value,
}

module _ (t : AlephTypes) where
  -- Invocation_Request_Msg
  abbrev pub invocation_request_msg_shapes : List Shape
  invocation_request_msg_shapes = shape word_type ∷ shape t.binding ∷ shape t.message_id ∷ []

  unfoldable pub invocation_request_msg :
      Aleph → ℕ → t.Binding → t.MessageId → List ℕ → {S : Type 0} → M S (List ℕ)
  invocation_request_msg k request_size binding message_id memory =
      call_message k (remote_value invocation_request) invocation_request_msg_shapes
        (word request_size ∷ t.binding.bytes binding ∷ t.message_id.bytes message_id ∷ []) memory

  unfoldable pub invocation_request_msg_request_size : List ℕ → Option ℕ
  invocation_request_msg_request_size = member word_type invocation_request_msg_shapes 0

  unfoldable pub invocation_request_msg_binding : List ℕ → Option t.Binding
  invocation_request_msg_binding = member t.binding invocation_request_msg_shapes 1

  unfoldable pub invocation_request_msg_message_id : List ℕ → Option t.MessageId
  invocation_request_msg_message_id = member t.message_id invocation_request_msg_shapes 2

  -- What `get_request` points to: the array of no chars stands at the end of the last member.
  unfoldable pub invocation_request_msg_request : List ℕ → List ℕ
  invocation_request_msg_request memory =
      drop (end_of header_size invocation_request_msg_shapes) memory

  -- Invocation_Reply_Msg
  abbrev pub invocation_reply_msg_shapes : List Shape
  invocation_reply_msg_shapes =
      shape word_type ∷ shape t.binding ∷ shape t.message_id ∷ shape word_type ∷ []

  unfoldable pub invocation_reply_msg :
      Aleph
      → ℕ
      → t.Binding
      → t.MessageId
      → InvocationReplyType
      → List ℕ
      → {S : Type 0} → M S (List ℕ)
  invocation_reply_msg k reply_size binding msg_id reply_type memory =
      call_message k (remote_value invocation_reply) invocation_reply_msg_shapes
        (word reply_size
          ∷ t.binding.bytes binding
          ∷ t.message_id.bytes msg_id
          ∷ word (reply_type_value reply_type)
          ∷ [])
        memory

  unfoldable pub invocation_reply_msg_reply_size : List ℕ → Option ℕ
  invocation_reply_msg_reply_size = member word_type invocation_reply_msg_shapes 0

  unfoldable pub invocation_reply_msg_binding : List ℕ → Option t.Binding
  invocation_reply_msg_binding = member t.binding invocation_reply_msg_shapes 1

  unfoldable pub invocation_reply_msg_message_id : List ℕ → Option t.MessageId
  invocation_reply_msg_message_id = member t.message_id invocation_reply_msg_shapes 2

  unfoldable pub invocation_reply_msg_reply_type : List ℕ → Option ℕ
  invocation_reply_msg_reply_type = member word_type invocation_reply_msg_shapes 3

  unfoldable pub invocation_reply_msg_reply : List ℕ → List ℕ
  invocation_reply_msg_reply memory = drop (end_of header_size invocation_reply_msg_shapes) memory

  unfoldable pub set_reply_type : List ℕ → InvocationReplyType → List ℕ
  set_reply_type memory new_reply_type =
      put memory (offset_of header_size invocation_reply_msg_shapes 3)
        (word (reply_type_value new_reply_type))

  -- Gather_Object_CallMsg
  abbrev pub gather_object_call_msg_shapes : List Shape
  gather_object_call_msg_shapes = shape t.object_id ∷ []

  unfoldable pub empty_gather_object_call_msg : Aleph → List ℕ → {S : Type 0} → M S (List ℕ)
  empty_gather_object_call_msg k memory =
      fresh_call_message k (remote_value remote_locator_call_code_last)
        gather_object_call_msg_shapes memory

  unfoldable pub gather_object_call_msg : Aleph → t.ObjectId → List ℕ → {S : Type 0} → M S (List ℕ)
  gather_object_call_msg k object_id memory =
      call_message k (remote_value gather_object_information) gather_object_call_msg_shapes
        (t.object_id.bytes object_id ∷ []) memory

  unfoldable pub gather_object_call_msg_object_id : List ℕ → Option t.ObjectId
  gather_object_call_msg_object_id = member t.object_id gather_object_call_msg_shapes 0

  -- Find_Owner_CallMsg
  abbrev pub find_owner_call_msg_shapes : List Shape
  find_owner_call_msg_shapes = shape t.object_id ∷ []

  unfoldable pub empty_find_owner_call_msg : Aleph → List ℕ → {S : Type 0} → M S (List ℕ)
  empty_find_owner_call_msg k memory =
      fresh_call_message k (remote_value remote_locator_call_code_last) find_owner_call_msg_shapes
        memory

  unfoldable pub find_owner_call_msg : Aleph → t.ObjectId → List ℕ → {S : Type 0} → M S (List ℕ)
  find_owner_call_msg k object_id memory =
      call_message k (remote_value find_owner) find_owner_call_msg_shapes
        (t.object_id.bytes object_id ∷ []) memory

  unfoldable pub find_owner_call_msg_object_id : List ℕ → Option t.ObjectId
  find_owner_call_msg_object_id = member t.object_id find_owner_call_msg_shapes 0

  -- Find_RetMsg
  abbrev pub find_ret_msg_shapes : List Shape
  find_ret_msg_shapes = shape t.locator ∷ shape word_type ∷ []

  unfoldable pub empty_find_ret_msg : Aleph → List ℕ → {S : Type 0} → M S (List ℕ)
  empty_find_ret_msg k memory =
      fresh_call_message k (remote_value remote_locator_call_code_last) find_ret_msg_shapes memory

  unfoldable pub find_ret_msg :
      Aleph → t.Locator → InvocationReplyType → List ℕ → {S : Type 0} → M S (List ℕ)
  find_ret_msg k locator reply_type memory =
      call_message k (remote_value response_from_gather) find_ret_msg_shapes
        (t.locator.bytes locator ∷ word (reply_type_value reply_type) ∷ []) memory

  unfoldable pub find_ret_msg_locator : List ℕ → Option t.Locator
  find_ret_msg_locator = member t.locator find_ret_msg_shapes 0

  unfoldable pub find_ret_msg_reply_type : List ℕ → Option ℕ
  find_ret_msg_reply_type = member word_type find_ret_msg_shapes 1

  -- Locator_Anounce
  abbrev pub locator_anounce_shapes : List Shape
  locator_anounce_shapes = shape t.locator ∷ []

  unfoldable pub locator_anounce_msg : Aleph → t.Locator → List ℕ → {S : Type 0} → M S (List ℕ)
  locator_anounce_msg k locator memory =
      call_message k (remote_value locator_anounce) locator_anounce_shapes
        (t.locator.bytes locator ∷ []) memory

  unfoldable pub locator_anounce_locator : List ℕ → Option t.Locator
  locator_anounce_locator = member t.locator locator_anounce_shapes 0

  -- Cache_In_Entries. `data_size` is sizeof(struct Cache_In_Data).
  abbrev pub cache_in_entries_shapes : List Shape
  cache_in_entries_shapes = shape t.object_id ∷ shape word_type ∷ []

  unfoldable pub cache_in_entries :
      Aleph → ℕ → t.ObjectId → ℕ → List ℕ → {S : Type 0} → M S (List ℕ)
  cache_in_entries k data_size obj_id numb_of_ent memory = do
    message ←
        sized_message k (remote_value receive_cache_in)
          (sizeof cache_in_entries_shapes + numb_of_ent * data_size) cache_in_entries_shapes
          (t.object_id.bytes obj_id ∷ word numb_of_ent ∷ []) memory
    assert k (leb 0 numb_of_ent)
    pure message

  unfoldable pub cache_in_entries_object_id : List ℕ → Option t.ObjectId
  cache_in_entries_object_id = member t.object_id cache_in_entries_shapes 0

  unfoldable pub cache_in_entries_number_of_entries : List ℕ → Option ℕ
  cache_in_entries_number_of_entries = member word_type cache_in_entries_shapes 1

  -- What `get_entries` points to, or none for NULL.
  unfoldable pub cache_in_entries_entries : List ℕ → Option (List ℕ)
  unfolding cache_in_entries_number_of_entries
  cache_in_entries_entries memory = elim (cache_in_entries_number_of_entries memory) [
    | none ↦ none
    | some n ↦
        if ltb 0 n then some (drop (end_of header_size cache_in_entries_shapes) memory) else none
  ]
