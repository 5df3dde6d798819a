-- ===== src/Binding.antt =====
-- include/binding_point.H, include/local_binding.C and include/remote_binding.C: how a server
-- answers the request that a binding stands for.
pub mod Responds
pub mod Effects
pub mod Meanwhile
pub mod Threads
use gservices.Base.{
  ℕ, ◌+◌, ◌^◌, ◌==◌, if◌then◌else◌, ltb, leb, List, [], ◌∷◌, ◌++◌, Bool, true, false, not, ◌||◌,
  ◌&&◌, Option, none, some, M, Aleph, done, stopped, out_of_bounds, use_after_free, pure, stop,
  assert, ◌>>=◌, ◌>>◌, length, take,
}
use gservices.Wire.{u32}
use gservices.Readwrite.{Ssize, ret, minus_one}
use gservices.Message.{MsgExitHeader, encode_exit, header_size}
use gservices.Reception.{BindingNode, ReceptionPoint, via}

-- The node of a binding in the list.
unfoldable pub find_binding : ℕ → List BindingNode → Option BindingNode
find_binding binding [] = none
find_binding binding (b ∷ bs) =
    if b.binding_point == binding then some b else find_binding binding bs

-- A change of the binding at an address.
unfoldable pub update_binding :
    ℕ → (BindingNode → BindingNode) → List BindingNode → List BindingNode
update_binding binding f [] = []
update_binding binding f (b ∷ bs) =
    if b.binding_point == binding then f b ∷ bs else b ∷ update_binding binding f bs

module _ {L : Type 0} where
  -- A binding that is in no list any more has been freed.
  pub binding_at : ℕ → M (ReceptionPoint L) BindingNode
  binding_at binding s = elim (find_binding binding s.binding_list) [
    | none ↦ (stopped use_after_free, s)
    | some b ↦ (done b, s)
  ]

  unfoldable pub change_binding : ℕ → (BindingNode → BindingNode) → M (ReceptionPoint L) (Unit {0})
  change_binding binding f s = elim (find_binding binding s.binding_list) [
    | none ↦ (stopped use_after_free, s)
    | some _ ↦ (done tt, record s { binding_list = update_binding binding f s.binding_list })
  ]

  abbrev pub set_still_busy : ℕ → Bool → M (ReceptionPoint L) (Unit {0})
  set_still_busy binding still_busy =
      change_binding binding (λ b. record b { still_busy = still_busy })

  abbrev pub set_request_message : ℕ → ℕ → M (ReceptionPoint L) (Unit {0})
  set_request_message binding ptr =
      change_binding binding (λ b. record b { request_message = some ptr })

-- `status <= 0`, for an int that holds what `writen` returned.
abbrev pub is_failure : Ssize → Bool
is_failure (ret n) = n == 0 || leb (2 ^ 31) n
is_failure minus_one = true

-- The reply as an object in memory: its header and the bytes behind it. The first `size` of them.
abbrev pub first_bytes : {L : Type 0} → MsgExitHeader → List ℕ → ℕ → M (ReceptionPoint L) (List ℕ)
first_bytes header body size =
    if leb size (length (encode_exit header ++ body))
    then pure (take size (encode_exit header ++ body))
    else stop out_of_bounds

module _ {L : Type 0} where
  -- The end of each `respond`: the service has been accomplished.
  pub accomplished : ℕ → Ssize → M (ReceptionPoint L) Ssize
  unfolding change_binding
  accomplished binding status = do set_still_busy binding false; pure status

-- A call that only works on the link.
abbrev pub on_link : {L A : Type 0} → (ℕ → List ℕ → M L A) → ℕ → List ℕ → M (ReceptionPoint L) A
on_link call peer bytes = via (call peer bytes)

-- `writen` on a socket. While it waits other threads may run, and so it works on the server.
module _ {L : Type 0} (writen : ℕ → List ℕ → M (ReceptionPoint L) Ssize) (k : Aleph) where
  -- `Local_Binding::respond(data, data_size)`
  unfoldable pub local_respond : ℕ → MsgExitHeader → List ℕ → ℕ → M (ReceptionPoint L) Ssize
  unfolding binding_at accomplished
  local_respond binding header body data_size = do
    assert k (leb header_size data_size)
    b ← binding_at binding
    bytes ←
        first_bytes (record header { response_size = data_size; invocation_size = 0 }) body
          data_size
    status ← writen b.peer bytes
    if is_failure status then pure (ret 0) else accomplished binding status

  -- The part of the other `respond` that sends the buffer; the result is the last `status`.
  pub write_buffer : ℕ → List ℕ → Ssize → M (ReceptionPoint L) Ssize
  write_buffer peer buffer status =
      if ltb 0 (length buffer)
      then (do status' ← writen peer buffer; assert k (not (is_failure status')); pure status')
      else pure status

  -- `Local_Binding::respond(data, data_size, buffer, buf_size)`, for a buffer that is not
  -- NULL and holds `buf_size` bytes.
  unfoldable pub local_respond_with_buffer :
      ℕ → MsgExitHeader → List ℕ → ℕ → List ℕ → M (ReceptionPoint L) Ssize
  unfolding binding_at accomplished write_buffer
  local_respond_with_buffer binding header body data_size buffer = do
    assert k (leb header_size data_size)
    b ← binding_at binding
    bytes ←
        first_bytes (record header { response_size = data_size; invocation_size = length buffer })
          body data_size
    status ← writen b.peer bytes
    elim (is_failure status) [
      | true ↦ pure (ret 0)
      | false ↦ do status' ← write_buffer b.peer buffer status; accomplished binding status'
    ]

-- `send_reply` of the IPC library, to the message with a given id.
module _ {L : Type 0} (send_reply : ℕ → List ℕ → M (ReceptionPoint L) (Unit {0})) where
  -- `Remote_Binding::respond(data, data_size)`
  unfoldable pub remote_respond : ℕ → MsgExitHeader → List ℕ → ℕ → M (ReceptionPoint L) Ssize
  unfolding binding_at accomplished
  remote_respond binding header body data_size = do
    b ← binding_at binding
    bytes ←
        first_bytes (record header { response_size = data_size; invocation_size = 0 }) body
          data_size
    send_reply b.peer bytes
    accomplished binding (ret 0)

  -- `Remote_Binding::respond(data, data_size, buffer, buffer_size)`: one message of both parts.
  -- The block is `Malloc(data_size + buffer_size)`, a size_t: the copies must end inside it.
  unfoldable pub remote_respond_with_buffer :
      ℕ → MsgExitHeader → List ℕ → ℕ → List ℕ → M (ReceptionPoint L) Ssize
  unfolding binding_at accomplished
  remote_respond_with_buffer binding header body data_size buffer = do
    b ← binding_at binding
    bytes ←
        first_bytes (record header { response_size = data_size; invocation_size = length buffer })
          body data_size
    elim (leb (data_size + length buffer) (u32 (data_size + length buffer))) [
      | true ↦ do send_reply b.peer (bytes ++ buffer); accomplished binding (ret 0)
      | false ↦ stop out_of_bounds
    ]
