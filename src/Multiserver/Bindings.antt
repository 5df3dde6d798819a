-- ===== src/Multiserver/Bindings.antt =====
-- The engine and the binding list of include/remote_multiserver_point.H on one message.
use mathlib.Core.List.{reverse, reverse-cons}
use gservices.Base.{
  ℕ, ◌≤◌, ◌≡◌, ◌≢◌, List, [], ◌∷◌, ◌++◌, Option, none, some, Bool, not, ◌||◌, Aleph, done, arith,
  length, get_elem?, take, if◌then◌else◌, append-nil, append_assoc,
}
use gservices.Message.{MsgEntryHeader, send, shutdown, service_value, decode_entry}
use gservices.Multiserver.{
  loccom_async, Service, BindingNode, Multiserver, freeing_loop, binding_list_freeing_fct, take_out,
}
use gservices.Multiserver.Engine.{
  Functions, single_message, Incoming, reception_buffer_size, execute_service, dispatcher,
  take_message,
}

abbrev pub stays : Bool → List BindingNode → List BindingNode
stays d [] = []
stays d (b ∷ bs) = if not b.still_busy || d then stays d bs else b ∷ stays d bs

abbrev pub freed_by : Bool → List BindingNode → List ℕ
freed_by d [] = []
freed_by d (b ∷ bs) =
    if not b.still_busy || d then b.binding_point ∷ b.node ∷ freed_by d bs else freed_by d bs

dlink_loop_lem :
    (d : Bool) (passed rest : List BindingNode) (freed : List ℕ)
    → freeing_loop d passed rest freed ≡ (reverse passed ++ stays d rest, freed ++ freed_by d rest)
unfolding freeing_loop
dlink_loop_lem d passed [] freed = ground (arith, append-nil (reverse passed), append-nil freed)
dlink_loop_lem d passed (b ∷ rest) freed = ground (
  arith,
  dlink_loop_lem d passed rest (freed ++ b.binding_point ∷ b.node ∷ []),
  dlink_loop_lem d (b ∷ passed) rest freed,
  append_assoc freed (b.binding_point ∷ b.node ∷ []) (freed_by d rest),
  reverse-cons b passed,
  append_assoc (reverse passed) (b ∷ []) (stays d rest),
)

module _ {L : Type 0} where
  -- The loop over the Dlink keeps the bindings that are busy, in their order, and frees the others
  -- with their nodes; in a shutdown it frees them all.
  pub dlink_freeing_lem :
      (s : Multiserver L)
      → binding_list_freeing_fct s ≡ (
        done tt,
        record s {
          binding_list = stays s.is_shutdown s.binding_list;
          freed = s.freed ++ freed_by s.is_shutdown s.binding_list;
        },
      )
  unfolding binding_list_freeing_fct
  dlink_freeing_lem s = rw (dlink_loop_lem s.is_shutdown [] s.binding_list s.freed)

  -- The state in which the dispatcher is called for a message without a binding.
  abbrev pub before_dispatch : Incoming → Multiserver L → Multiserver L
  before_dispatch m s = record s {
    dispatched_message_id = m.id;
    live = m.message ∷ s.live;
    binding_list = stays s.is_shutdown s.binding_list;
    freed = s.freed ++ freed_by s.is_shutdown s.binding_list;
  }

  module _ (f : Functions L) (k : Aleph) (m : Incoming) (h : MsgEntryHeader) (rest : List ℕ)
      (s : Multiserver L) where
    -- Once all services are registered, a single message for an `Async_Service` runs the service on
    -- the bytes of the message and frees their block: if the service returns and leaves the
    -- allocated blocks as they were, so does the engine.
    pub single_message_served :
        (before : Option ℕ) (e : Service) (t : Multiserver L)
        → m.flags ≡ single_message
        → m.body_size ≤ reception_buffer_size
        → m.body_size ≤ length m.body
        → decode_entry (take m.body_size m.body) ≡ some (h, rest)
        → h.deamon_service_code ≡ service_value send
        → s.registered_services ≡ s.number_of_services
        → get_elem? s.table h.client_service_code ≡ some (some e)
        → e.who_am_i ≡ loccom_async
        → f.async_fct e.fct (take m.body_size m.body) (before_dispatch m s) ≡ (done tt, t)
        → t.live ≡ m.message ∷ s.live
        → take_message f k before m s ≡ (done none, record t { live = s.live })
    unfolding take_message dispatcher execute_service take_out
    single_message_served before e t flags fits inside read code all there type ran live =
        let freeing =
          dlink_freeing_lem
            (record s { dispatched_message_id = m.id; live = m.message ∷ s.live }) in
        ground (arith, freeing, ran, live)

    -- A single message that fits the buffer and asks neither for a service nor for the shutdown is
    -- dropped: the engine notes its id and frees the answered bindings as for any message, but the
    -- block of its bytes stays allocated.
    pub take_message_leaks :
        (before : Option ℕ)
        → m.flags ≡ single_message
        → m.body_size ≤ reception_buffer_size
        → m.body_size ≤ length m.body
        → decode_entry (take m.body_size m.body) ≡ some (h, rest)
        → h.deamon_service_code ≢ service_value send
        → h.deamon_service_code ≢ service_value shutdown
        → take_message f k before m s ≡ (done none, before_dispatch m s)
    unfolding take_message dispatcher
    take_message_leaks before flags fits inside read other other' =
        let freeing =
          dlink_freeing_lem
            (record s { dispatched_message_id = m.id; live = m.message ∷ s.live }) in
        ground (arith, freeing, other, other')
