-- ===== src/Multiserver/Engine.antt =====
-- include/remote_multiserver_point.H and include/remote_multiserver_binding.H: the engine, the
-- dispatcher, the replies and the shutdown of the server that answers several clients.
use gservices.Base.{
  ◌||◌, ℕ, ◌==◌, if◌then◌else◌, ltb, leb, List, [], ◌∷◌, ◌++◌, Option, none, some, Bool, true,
  false, not, M, Aleph, done, stopped, blocked, size_fault, unexpected, use_after_free, pure, get,
  throw, assert, error, ◌>>=◌, ◌>>◌,
}
use gservices.Message.{
  send, shutdown, service_of, header_size, entry_at, encode_entry, shutdown_message,
}
use gservices.Multiserver.{
  loccom_rpc, loccom_async, Service, BindingNode, Multiserver, Network, via, malloc, free, entry,
  bytes_of, binding_list_freeing_fct,
}
use gservices.Multiserver.Sender.{join_parts, async_send}

-- The user's service functions, by their number: what they are given is the message and, for a
-- `Sync_Service`, the binding through which it answers.
pub record Functions (L : Type 0) : Type 0 where
  pub sync_fct : ℕ → List ℕ → ℕ → M (Multiserver L) (Unit {0})
  pub async_fct : ℕ → List ℕ → M (Multiserver L) (Unit {0})

-- `getFlags` of a message that has arrived.
pub data Flags : Type 0 where
  rpc_request rpc_reply single_message other_flags : Flags

-- A message that `receive` returns: its id and flags, the bytes of its body and `getBodySize`, and
-- the addresses that the engine then gets for it.
pub record Incoming : Type 0 where
  pub id : ℕ
  pub flags : Flags
  pub body : List ℕ
  pub body_size : ℕ
  pub message : ℕ
  pub binding_point : ℕ
  pub node : ℕ

abbrev pub reception_buffer_size : ℕ
reception_buffer_size = 65536

-- The change of `still_busy` of the binding at an address.
unfoldable pub set_busy : ℕ → Bool → List BindingNode → List BindingNode
set_busy binding b [] = []
set_busy binding b (x ∷ xs) =
    if x.binding_point == binding
    then record x { still_busy = b } ∷ xs
    else x ∷ set_busy binding b xs

-- The message that a binding answers; a binding that is in no list is freed.
unfoldable pub message_id_of : ℕ → List BindingNode → Option ℕ
message_id_of binding [] = none
message_id_of binding (b ∷ bs) =
    if b.binding_point == binding then some b.message_id else message_id_of binding bs

-- The addresses of the services that `shutdown` deletes.
unfoldable pub services_of : List (Option Service) → List ℕ
services_of [] = []
services_of (none ∷ es) = services_of es
services_of (some s ∷ es) = s.address ∷ services_of es

module _ {L : Type 0} where
  abbrev pub append_binding : BindingNode → M (Multiserver L) (Unit {0})
  append_binding b s = (done tt, record s { binding_list = s.binding_list ++ b ∷ [] })

  abbrev pub raise_shutdown : M (Multiserver L) (Unit {0})
  raise_shutdown s = (done tt, record s { is_shutdown = true })

  -- The switch over the flags: the binding for the dispatcher, NULL for one that nobody waits for.
  -- After an ERROR that returns, the pointer keeps its last value.
  unfoldable pub new_binding : Aleph → Option ℕ → Incoming → M (Multiserver L) (Option ℕ)
  new_binding k before m = elim m.flags [
    | rpc_request ↦ do
      append_binding (record {
        node = m.node;
        binding_point = m.binding_point;
        still_busy = true;
        message_id = m.id;
      })
      pure (some m.binding_point)
    | rpc_reply ↦ pure none
    | single_message ↦ pure none
    | other_flags ↦ do error k; pure before
  ]

module _ {L : Type 0} (f : Functions L) (k : Aleph) where
  -- `execute_service` of an `Async_Service` or a `Sync_Service`.
  unfoldable pub execute_service : Service → List ℕ → Option ℕ → M (Multiserver L) (Unit {0})
  execute_service s message return_point = elim s.who_am_i [
    | loccom_async ↦ do
      assert k (elim return_point [ none ↦ true | some _ ↦ false ])
      f.async_fct s.fct message
    | loccom_rpc ↦ elim return_point [
      | none ↦ do assert k false; f.sync_fct s.fct message 0
      | some binding ↦ f.sync_fct s.fct message binding
    ]
  ]

  -- `dispatcher`: the message is given by its address and its bytes.
  unfoldable pub dispatcher : ℕ → List ℕ → Option ℕ → M (Multiserver L) (Unit {0})
  unfolding entry_at entry free
  dispatcher address in_message to_whom = do
    (header, _) ← entry_at in_message
    elim (service_of header.deamon_service_code) [
      | none ↦ pure tt
      | some code ↦ elim code [
        | send ↦ do
          s ← get
          assert k (s.registered_services == s.number_of_services)
          e ← entry header.client_service_code
          elim e [
            | none ↦ error k
            | some service ↦ do execute_service service in_message to_whom; free address
          ]
        | shutdown ↦ do free address; raise_shutdown
        | _ ↦ pure tt
      ]
    ]

  -- The body of the loop of `locator_deamon_engine` for a message; the result is the pointer to the
  -- binding, which is kept between messages.
  unfoldable pub take_message : Option ℕ → Incoming → M (Multiserver L) (Option ℕ)
  unfolding new_binding
  take_message before m = do
    (λ s. (done tt, record s { dispatched_message_id = m.id }))
    elim (ltb reception_buffer_size m.body_size) [
      | true ↦ throw (size_fault m.body_size)
      | false ↦ do
        malloc m.message
        bytes ← bytes_of m.body m.body_size
        binding ← new_binding k before m
        binding_list_freeing_fct
        dispatcher m.message bytes binding
        pure binding
    ]

  -- `locator_deamon_engine` for the messages that are given; after them `receive` waits.
  unfoldable pub locator_deamon_engine : Option ℕ → List Incoming → M (Multiserver L) (Unit {0})
  locator_deamon_engine before [] s = if s.is_shutdown then (done tt, s) else (blocked, s)
  locator_deamon_engine before (m ∷ ms) s =
      if s.is_shutdown
      then (done tt, s)
      else (do binding ← take_message before m; locator_deamon_engine binding ms) s

module _ {L : Type 0} (net : Network L) (k : Aleph) where
  unfoldable pub write_to_client : ℕ → List ℕ → M (Multiserver L) (Unit {0})
  unfolding message_id_of
  write_to_client binding bytes s = elim (message_id_of binding s.binding_list) [
    | none ↦ (stopped use_after_free, s)
    | some id ↦ via (net.rpc_send_reply bytes id) s
  ]

  abbrev accomplished : ℕ → M (Multiserver L) ℕ
  accomplished binding s =
      (done 0, record s { binding_list = set_busy binding false s.binding_list })

  -- `rpc_reply`
  unfoldable pub send_rpc_reply : ℕ → List ℕ → ℕ → M (Multiserver L) ℕ
  unfolding write_to_client
  send_rpc_reply binding reply data_size = do
    assert k (leb header_size data_size)
    bytes ← bytes_of reply data_size
    write_to_client binding bytes
    accomplished binding

  -- The second part of the message: without a buffer the block keeps there what it held.
  abbrev second_part : List ℕ → Option (List ℕ) → ℕ → M (Multiserver L) (List ℕ)
  second_part contents none buffer_size = bytes_of contents buffer_size
  second_part contents (some buffer) buffer_size = bytes_of buffer buffer_size

  abbrev has_buffer : Option (List ℕ) → Bool
  has_buffer none = false
  has_buffer (some _) = true

  -- The other `rpc_reply`, with the address that `Malloc` returns and what the block held; the
  -- buffer may be NULL.
  unfoldable pub send_rpc_reply_buffer :
      ℕ → List ℕ → ℕ → List ℕ → ℕ → Option (List ℕ) → ℕ → M (Multiserver L) ℕ
  unfolding join_parts free write_to_client
  send_rpc_reply_buffer address contents binding reply data_size buffer buffer_size = do
    assert k (leb header_size data_size)
    assert k (has_buffer buffer || buffer_size == 0)
    malloc address
    first ← bytes_of reply data_size
    second ← second_part contents buffer buffer_size
    bytes ← join_parts net k first second
    write_to_client binding bytes
    free address
    accomplished binding

  -- `shutdown`. `wait` is `pthread_cond_wait`: what the other threads do until it returns.
  unfoldable pub shut_down : M (Multiserver L) (Unit {0}) → ℕ → M (Multiserver L) (Unit {0})
  unfolding services_of binding_list_freeing_fct async_send
  shut_down wait this_port = do
    s ← get
    assert k (not s.is_shutdown)
    async_send net k this_port (encode_entry shutdown_message)
    s' ← get
    elim s'.is_shutdown [ true ↦ pure tt | false ↦ wait ]
    (λ t. (done tt, record t { freed = t.freed ++ services_of t.table; table = [] }))
    binding_list_freeing_fct

  -- The destructor.
  unfoldable pub destroy_point : M (Multiserver L) (Unit {0}) → ℕ → M (Multiserver L) (Unit {0})
  unfolding shut_down
  destroy_point wait this_port s =
      if s.is_shutdown then (done tt, s) else shut_down wait this_port s

-- `start_deamon`, by whether `pthread_create` succeeds; the thread runs `locator_deamon_engine`.
abbrev pub start_deamon : {S : Type 0} → Bool → M S (Unit {0})
start_deamon created = if created then pure tt else throw unexpected
