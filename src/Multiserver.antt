-- ===== src/Multiserver.antt =====
-- include/remote_multiserver_point.H: a server that answers several clients and sends requests of
-- its own to other servers. Its state, its table and its binding list.
pub mod Engine
pub mod Sending
pub mod Sender
pub mod Services
pub mod Bindings
pub mod Answers
pub mod Runs
pub mod Closing
use gservices.Base.{
  ℕ, suc, ◌+◌, ◌==◌, if◌then◌else◌, ltb, leb, List, [], ◌∷◌, ◌++◌, Option, none, some, Bool, true,
  false, not, ◌||◌, M, Aleph, Outcome, done, stopped, not_found, duplicated, null_pointer,
  out_of_bounds, use_after_free, pure, get, stop, throw, assert, error, ◌>>=◌, ◌>>◌, length,
  get_elem?, set, take, replicate, after,
}
use gservices.Wire.{u32, is_nonneg}
use gservices.Message.{
  MsgEntryHeader, ServiceCode, send, shutdown, service_of, header_size, name_size, entry_at,
  encode_entry, shutdown_message,
}
use mathlib.Core.List.{reverse}

-- `Sending_Type`, and what `who_am_i` returns.
pub data SendingType : Type 0 where
  loccom_rpc loccom_async : SendingType

-- A `Sync_Service` or an `Async_Service`, by what it is, with its address.
pub record Service : Type 0 where
  pub address : ℕ
  pub service_name : List ℕ
  pub who_am_i : SendingType
  pub fct : ℕ

-- A `Binding_Node` of the Dlink with its `Remote_Multiserver_Binding`.
pub record BindingNode : Type 0 where
  pub node : ℕ
  pub binding_point : ℕ
  pub still_busy : Bool
  pub message_id : ℕ

-- `live` lists the blocks of `Malloc` that have not been given to `Free`; `freed` the addresses
-- given to `Delete`.
pub record Multiserver (L : Type 0) : Type 0 where
  pub link : L
  pub table : List (Option Service)
  pub number_of_services : ℕ
  pub registered_services : ℕ
  pub is_shutdown : Bool
  pub binding_list : List BindingNode
  pub dispatched_message_id : ℕ
  pub live : List ℕ
  pub freed : List ℕ

-- `Ipc_MultiClient_Server`: two ways to send a message to a port, and the reply to a message. The
-- result is a `MsgId`.
pub record Network (L : Type 0) : Type 0 where
  pub rpc_send_request : ℕ → List ℕ → M L ℕ
  pub send_message : ℕ → List ℕ → M L ℕ
  pub rpc_send_reply : List ℕ → ℕ → M L (Unit {0})

abbrev pub multiserver : {L : Type 0} → L → ℕ → Multiserver L
multiserver link no_of_services = record {
  link = link;
  table = replicate no_of_services none;
  number_of_services = no_of_services;
  registered_services = 0;
  is_shutdown = false;
  binding_list = [];
  dispatched_message_id = 0;
  live = [];
  freed = [];
}

abbrev on_link : {L A : Type 0} → Multiserver L → Outcome A × L → Outcome A × Multiserver L
on_link s (o, l) = (o, record s { link = l })

put_back : ℕ → Option (List ℕ) → Option (List ℕ)
put_back a none = none
put_back a (some rest) = some (a ∷ rest)

-- The list without the first block of this address, if it is there.
unfoldable pub take_out : ℕ → List ℕ → Option (List ℕ)
unfolding put_back
take_out address [] = none
take_out address (a ∷ bs) = if a == address then some bs else put_back a (take_out address bs)

-- The loop of `binding_list_freeing_fct` over the Dlink; `passed` is behind the cursor.
pub freeing_loop : Bool → List BindingNode → List BindingNode → List ℕ → List BindingNode × List ℕ
freeing_loop is_shutdown passed [] freed = (reverse passed, freed)
freeing_loop is_shutdown passed (b ∷ rest) freed = elim (not b.still_busy || is_shutdown) [
  | true ↦ freeing_loop is_shutdown passed rest (freed ++ b.binding_point ∷ b.node ∷ [])
  | false ↦ freeing_loop is_shutdown (b ∷ passed) rest freed
]

module _ {L : Type 0} where
  -- A call that works on the connection.
  abbrev pub via : {A : Type 0} → M L A → M (Multiserver L) A
  via m s = on_link s (m s.link)

  -- `Malloc`, which returns the address given.
  abbrev pub malloc : ℕ → M (Multiserver L) (Unit {0})
  malloc address s = (done tt, record s { live = address ∷ s.live })

  -- `table[service_code]`
  pub entry : ℕ → M (Multiserver L) (Option Service)
  entry service_code s = elim (get_elem? s.table service_code) [
    | none ↦ (stopped out_of_bounds, s)
    | some e ↦ (done e, s)
  ]

  pub put_entry : ℕ → Option Service → M (Multiserver L) (Unit {0})
  put_entry service_code e s =
      if ltb service_code (length s.table)
      then (done tt, record s { table = set s.table service_code e })
      else (stopped out_of_bounds, s)

  -- `Free`
  unfoldable pub free : ℕ → M (Multiserver L) (Unit {0})
  unfolding take_out
  free address s = elim (take_out address s.live) [
    | none ↦ (stopped use_after_free, s)
    | some rest ↦ (done tt, record s { live = rest })
  ]

  -- The first `size` bytes of an object.
  abbrev pub bytes_of : List ℕ → ℕ → M (Multiserver L) (List ℕ)
  bytes_of memory size =
      if leb size (length memory) then pure (take size memory) else stop out_of_bounds

  -- `include_service`. The code is a long, and a negative one is less than the number of services.
  unfoldable pub include_service : Aleph → ℕ → Service → M (Multiserver L) (Unit {0})
  unfolding entry put_entry
  include_service k servc_code service = do
    s ← get
    assert k (not (is_nonneg servc_code) || ltb servc_code s.number_of_services)
    e ← entry servc_code
    elim e [
      | none ↦ do
        assert k (ltb s.registered_services s.number_of_services)
        put_entry servc_code (some service)
        (λ s'. (done tt, record s' { registered_services = suc s'.registered_services }))
      | some _ ↦ do
        (λ s'. (done tt, record s' { freed = s'.freed ++ service.address ∷ [] }))
        throw duplicated
    ]

  -- The two `add_service`: the constructor copies the name into an array of 80 bytes.
  unfoldable pub add_service :
      Aleph → SendingType → ℕ → ℕ → List ℕ → ℕ → M (Multiserver L) (Unit {0})
  add_service k type address servc_code serv_name service =
      if ltb (length serv_name) name_size
      then include_service k servc_code
          (record { address = address; service_name = serv_name; who_am_i = type; fct = service })
      else stop out_of_bounds

  -- `delete_service`
  unfoldable pub delete_service : ℕ → M (Multiserver L) (Unit {0})
  unfolding entry put_entry
  delete_service service_code = do
    e ← entry service_code
    elim e [
      | none ↦ throw not_found
      | some service ↦ do
        (λ s. (done tt, record s { freed = s.freed ++ service.address ∷ [] }))
        put_entry service_code none
    ]

  unfoldable pub binding_list_freeing_fct : M (Multiserver L) (Unit {0})
  unfolding freeing_loop
  binding_list_freeing_fct s =
      let (kept, freed) = freeing_loop s.is_shutdown [] s.binding_list s.freed in
      (done tt, record s { binding_list = kept; freed = freed })
