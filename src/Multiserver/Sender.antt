-- ===== src/Multiserver/Sender.antt =====
-- How the server of include/remote_multiserver_point.H sends requests of its own: `async_send`,
-- `rpc_send` and the sends to other servers.
use gservices.Base.{
  ℕ, ◌+◌, if◌then◌else◌, ltb, leb, List, ◌++◌, Option, none, some, Bool, true, false, M, Aleph,
  not_found, null_pointer, out_of_bounds, pure, stop, throw, assert, error, ◌>>=◌, ◌>>◌, length,
}
use gservices.Wire.{u32}
use gservices.Message.{send, shutdown, service_of, header_size, entry_at}
use gservices.Multiserver.{
  SendingType, loccom_rpc, loccom_async, Multiserver, Network, via, malloc, entry, bytes_of, free,
}

-- An ASSERT whose condition calls a function: when ASSERT does nothing, the call is not made.
abbrev pub assert_call : {S : Type 0} → Aleph → M S Bool → M S (Unit {0})
assert_call k condition = elim k.assert_stops [
  | true ↦ do b ← condition; assert k b
  | false ↦ pure tt
]

abbrev pub same_type : SendingType → SendingType → Bool
same_type loccom_rpc loccom_rpc = true
same_type loccom_async loccom_async = true
same_type _ _ = false

module _ {L : Type 0} (net : Network L) (k : Aleph) where
  -- `sending_check`
  unfoldable pub sending_check : ℕ → List ℕ → ℕ → SendingType → M (Multiserver L) (Unit {0})
  unfolding entry_at entry
  sending_check target_port request request_size type = do
    (header, _) ← entry_at request
    elim (service_of header.deamon_service_code) [
      | none ↦ error k
      | some code ↦ elim code [
        | send ↦ do
          e ← entry header.client_service_code
          elim e [ none ↦ throw not_found | some _ ↦ pure tt ]
        | shutdown ↦ pure tt
        | _ ↦ error k
      ]
    ]
    message ← bytes_of request request_size
    _ ← via (elim type [
      | loccom_rpc ↦ net.rpc_send_request target_port message
      | loccom_async ↦ net.send_message target_port message
    ])
    pure tt

  -- `table[...]->who_am_i() == type`
  pub has_type : ℕ → SendingType → M (Multiserver L) Bool
  unfolding entry
  has_type service_code type = do
    e ← entry service_code
    elim e [ none ↦ stop null_pointer | some s ↦ pure (same_type s.who_am_i type) ]

  -- `async_send`. The section of `lock_send` is released at its end, by an exception too.
  unfoldable pub async_send : ℕ → List ℕ → M (Multiserver L) (Unit {0})
  unfolding entry_at has_type
  async_send target_port request = do
    (header, _) ← entry_at request
    assert_call k (elim (service_of header.deamon_service_code) [
      | none ↦ has_type header.client_service_code loccom_async
      | some code ↦ elim code [
        | shutdown ↦ pure true
        | _ ↦ has_type header.client_service_code loccom_async
      ]
    ])
    sending_check target_port request (u32 (header_size + header.parameters_size)) loccom_async

  -- `rpc_send`
  unfoldable pub rpc_send : ℕ → List ℕ → ℕ → M (Multiserver L) (Unit {0})
  unfolding entry_at has_type
  rpc_send target_port request request_size = do
    (header, _) ← entry_at request
    assert_call k (has_type header.client_service_code loccom_rpc)
    sending_check target_port request request_size loccom_rpc

  -- The two copies into a block of `malloc(message_size)`, with the size of a size_t: they must end
  -- inside it.
  unfoldable pub join_parts : List ℕ → List ℕ → M (Multiserver L) (List ℕ)
  join_parts first second =
      if leb (length first + length second) (u32 (length first + length second))
      then pure (first ++ second)
      else stop out_of_bounds

  -- `Malloc(message_size)`, at the address given, and the two parts of the message.
  pub join_message : ℕ → List ℕ → ℕ → List ℕ → ℕ → M (Multiserver L) (List ℕ)
  unfolding join_parts
  join_message address request request_size invocation invocation_size = do
    malloc address
    first ← bytes_of request request_size
    second ← bytes_of invocation invocation_size
    join_parts first second

  -- The other `rpc_send`: an exception leaves before `Free`.
  unfoldable pub rpc_send_invocation :
      ℕ → ℕ → List ℕ → ℕ → List ℕ → ℕ → M (Multiserver L) (Unit {0})
  unfolding entry_at has_type join_message free
  rpc_send_invocation address target_port request request_size invocation invocation_size = do
    (header, _) ← entry_at request
    assert_call k (has_type header.client_service_code loccom_rpc)
    message ← join_message address request request_size invocation invocation_size
    sending_check target_port message (u32 (request_size + invocation_size)) loccom_rpc
    free address

  -- `rpc_send_to_other_server` and `async_send_to_other_server`: no service is looked up.
  unfoldable pub send_to_other_server : SendingType → ℕ → List ℕ → ℕ → M (Multiserver L) ℕ
  send_to_other_server type target_port request request_size = do
    message ← bytes_of request request_size
    via (elim type [
      | loccom_rpc ↦ net.rpc_send_request target_port message
      | loccom_async ↦ net.send_message target_port message
    ])

  -- The two that also take an invocation, which is NULL where none is given.
  unfoldable pub send_invocation_to_other_server :
      SendingType → ℕ → ℕ → List ℕ → ℕ → Option (List ℕ) → ℕ → M (Multiserver L) ℕ
  unfolding join_parts free send_to_other_server
  send_invocation_to_other_server type address target_port request request_size none
        invocation_size =
      do malloc address; _ ← bytes_of request request_size; assert k false; stop null_pointer
  send_invocation_to_other_server type address target_port request request_size (some invocation)
        invocation_size =
      do
        malloc address
        first ← bytes_of request request_size
        assert k (ltb 0 invocation_size)
        second ← bytes_of invocation invocation_size
        message ← join_parts first second
        msg_id ←
            send_to_other_server type target_port message (u32 (request_size + invocation_size))
        free address
        pure msg_id

  -- The last of them sends a single message.
  abbrev pub async_send_invocation_to_other_server :
      ℕ → ℕ → List ℕ → ℕ → Option (List ℕ) → ℕ → M (Multiserver L) ℕ
  async_send_invocation_to_other_server = send_invocation_to_other_server loccom_async
