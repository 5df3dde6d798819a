-- ===== src/Multiserver/Answers.antt =====
-- A request to the server of include/remote_multiserver_point.H and its answer through the binding.
use gservices.Base.{
  ℕ, ◌≤◌, ◌≡◌, refl, List, [], ◌∷◌, ◌++◌, Option, none, some, Bool, true, false, M, Aleph, done,
  pure, ◌>>=◌, arith, length, get_elem?, take, take_ge, append-nil,
}
use gservices.Message.{MsgEntryHeader, send, service_value, header_size, decode_entry}
use gservices.Multiserver.{loccom_rpc, Service, BindingNode, Multiserver, Network, take_out}
use gservices.Multiserver.Engine.{
  Functions, rpc_request, Incoming, reception_buffer_size, set_busy, message_id_of, new_binding,
  execute_service, dispatcher, take_message, write_to_client, send_rpc_reply,
}
use gservices.Multiserver.Bindings.{stays, freed_by, dlink_freeing_lem}

abbrev pub busy_node : Incoming → BindingNode
busy_node m = record {
  node = m.node;
  binding_point = m.binding_point;
  still_busy = true;
  message_id = m.id;
}

pub stays-append :
    (d : Bool) (xs ys : List BindingNode) → stays d (xs ++ ys) ≡ stays d xs ++ stays d ys
stays-append d [] ys = refl
stays-append d (b ∷ xs) ys = ground (arith, stays-append d xs ys)

freed_by-append :
    (d : Bool) (xs ys : List BindingNode) → freed_by d (xs ++ ys) ≡ freed_by d xs ++ freed_by d ys
freed_by-append d [] ys = refl
freed_by-append d (b ∷ xs) ys = ground (arith, freed_by-append d xs ys)

pub stays_again : (xs : List BindingNode) → stays false (stays false xs) ≡ stays false xs
stays_again [] = refl
stays_again (b ∷ xs) = ground (arith, stays_again xs)

pub stays-all : (xs : List BindingNode) → stays true xs ≡ []
stays-all [] = refl
stays-all (b ∷ xs) = ground (arith, stays-all xs)

message_id_of-append :
    (a : ℕ) (xs ys : List BindingNode)
    → message_id_of a xs ≡ none
    → message_id_of a (xs ++ ys) ≡ message_id_of a ys
unfolding message_id_of
message_id_of-append a [] ys fresh = refl
message_id_of-append a (b ∷ xs) ys fresh = ground (arith, message_id_of-append a xs ys)

set_busy-append :
    (a : ℕ) (d : Bool) (xs ys : List BindingNode)
    → message_id_of a xs ≡ none
    → set_busy a d (xs ++ ys) ≡ xs ++ set_busy a d ys
unfolding message_id_of set_busy
set_busy-append a d [] ys fresh = refl
set_busy-append a d (b ∷ xs) ys fresh = ground (arith, set_busy-append a d xs ys)

module _ {L : Type 0} where
  -- The state after the answer of a request that has been taken.
  abbrev pub after_answer : (ℕ → List ℕ → L → L) → List ℕ → Incoming → Multiserver L → Multiserver L
  after_answer push reply m s = record s {
    link = push m.id reply s.link;
    dispatched_message_id = m.id;
    binding_list =
        stays s.is_shutdown s.binding_list ++ record (busy_node m) { still_busy = false } ∷ [];
    freed = s.freed ++ freed_by s.is_shutdown s.binding_list;
  }

module _ {L : Type 0} (net : Network L) (k : Aleph) where
  -- A service that answers through its binding and returns.
  abbrev pub answering : List ℕ → ℕ → M (Multiserver L) (Unit {0})
  answering reply binding = do _ ← send_rpc_reply net k binding reply (length reply); pure tt

  answering_lem :
      (push : ℕ → List ℕ → L → L) (reply : List ℕ) (m : Incoming) (bs : List BindingNode)
      (s : Multiserver L)
      → ((bytes : List ℕ) (id : ℕ) (l : L)
          → net.rpc_send_reply bytes id l ≡ (done tt, push id bytes l))
      → header_size ≤ length reply
      → message_id_of m.binding_point bs ≡ none
      → s.binding_list ≡ bs ++ busy_node m ∷ []
      → answering reply m.binding_point s ≡ (
        done tt,
        record s {
          link = push m.id reply s.link;
          binding_list = bs ++ record (busy_node m) { still_busy = false } ∷ [];
        },
      )
  unfolding send_rpc_reply write_to_client message_id_of set_busy
  answering_lem push reply m bs s goes sized fresh list =
      let found = message_id_of-append m.binding_point bs (busy_node m ∷ []) fresh in
      let marked = set_busy-append m.binding_point false bs (busy_node m ∷ []) fresh in
      let whole = take_ge (length reply) reply (omega arith) in
      let sent = goes reply m.id s.link in ground (arith, list, found, marked, whole, sent)

  module _ (f : Functions L) (push : ℕ → List ℕ → L → L) where
    -- The message is a request for a `Sync_Service` of the table that answers it with `reply`; its
    -- binding gets an address at which no binding still waits.
    pub record IsAnswered (table : List (Option Service)) (waiting : List BindingNode)
        (reply : List ℕ) (m : Incoming) : Type 0 where
      pub header : MsgEntryHeader
      pub rest : List ℕ
      pub service : Service
      pub flags : m.flags ≡ rpc_request
      pub fits : m.body_size ≤ reception_buffer_size
      pub inside : m.body_size ≤ length m.body
      pub reads : decode_entry (take m.body_size m.body) ≡ some (header, rest)
      pub code : header.deamon_service_code ≡ service_value send
      pub there : get_elem? table header.client_service_code ≡ some (some service)
      pub type : service.who_am_i ≡ loccom_rpc
      pub answers :
          (s : Multiserver L)
          → f.sync_fct service.fct (take m.body_size m.body) m.binding_point s
            ≡ answering reply m.binding_point s
      pub sized : header_size ≤ length reply
      pub fresh : message_id_of m.binding_point waiting ≡ none

    -- A request that a service answers through its binding: the network is given the reply under the
    -- id of that request, its binding is marked as answered behind those that still wait, the block of
    -- the message is freed, and the bindings that were answered before are freed.
    pub request_answered :
        (before : Option ℕ) (m : Incoming) (reply : List ℕ) (s : Multiserver L)
        → ((bytes : List ℕ) (id : ℕ) (l : L)
            → net.rpc_send_reply bytes id l ≡ (done tt, push id bytes l))
        → s.is_shutdown ≡ false
        → s.registered_services ≡ s.number_of_services
        → IsAnswered s.table (stays false s.binding_list) reply m
        → take_message f k before m s ≡ (done (some m.binding_point), after_answer push reply m s)
    unfolding take_message new_binding dispatcher execute_service take_out
    request_answered before m reply s goes up all r =
        let taken : Multiserver L = record s {
          dispatched_message_id = m.id;
          live = m.message ∷ s.live;
          binding_list = s.binding_list ++ busy_node m ∷ [];
        } in
        let freeing = dlink_freeing_lem taken in
        let kept = stays-append false s.binding_list (busy_node m ∷ []) in
        let gone = freed_by-append false s.binding_list (busy_node m ∷ []) in
        let nothing = append-nil (freed_by false s.binding_list) in
        let ran =
          answering_lem push reply m (stays false s.binding_list)
            (record taken {
              binding_list = stays false s.binding_list ++ busy_node m ∷ [];
              freed = s.freed ++ freed_by false s.binding_list;
            })
            goes r.sized r.fresh refl in
        let asked = r.answers (record taken {
          binding_list = stays false s.binding_list ++ busy_node m ∷ [];
          freed = s.freed ++ freed_by false s.binding_list;
        }) in
        let flags = r.flags in
        let fits = r.fits in
        let inside = r.inside in
        let reads = r.reads in
        let code = r.code in
        let there = r.there in
        let type = r.type in
        ground (
          arith, freeing, kept, gone, nothing, asked, ran, flags, fits, inside, reads, code, there,
          type,
        )
