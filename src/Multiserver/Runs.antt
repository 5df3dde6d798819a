-- ===== src/Multiserver/Runs.antt =====
-- Runs of the engine of include/remote_multiserver_point.H: requests that are answered through their
-- binding, then the shutdown.
use gservices.Base.{
  sym, subst, ℕ, ◌≡◌, ◌∙◌, refl, List, [], ◌∷◌, ◌++◌, Option, none, some, true, false, Aleph, done,
  arith, append-nil,
}
use gservices.Message.{header_size, decode_entry, encode_entry, shutdown_message}
use gservices.Message.Layout.{decode_entry-encode_entry}
use gservices.Multiserver.{Service, BindingNode, Multiserver, Network, take_out}
use gservices.Multiserver.Engine.{
  Functions, single_message, Incoming, new_binding, dispatcher, take_message, locator_deamon_engine,
}
use gservices.Multiserver.Bindings.{stays, freed_by, dlink_freeing_lem}
use gservices.Multiserver.Answers.{
  busy_node, stays-append, stays_again, after_answer, IsAnswered, request_answered,
}

abbrev pub messages : List (Incoming × List ℕ) → List Incoming → List Incoming
messages [] ms = ms
messages ((m, _) ∷ rs) ms = m ∷ messages rs ms

-- The message that `shutdown` sends, as `receive` returns it.
pub record IsStop (m : Incoming) : Type 0 where
  pub flags : m.flags ≡ single_message
  pub body : m.body ≡ encode_entry shutdown_message
  pub body_size : m.body_size ≡ header_size

stays_idle :
    (bs : List BindingNode) (m : Incoming)
    → stays false (stays false bs ++ record (busy_node m) { still_busy = false } ∷ [])
      ≡ stays false bs
stays_idle bs m =
    let idle : List BindingNode = record (busy_node m) { still_busy = false } ∷ [] in
    let split = stays-append false (stays false bs) idle in
    let again = stays_again bs in
    let nothing = append-nil (stays false bs) in ground (arith, split, again, nothing)

module _ {L : Type 0} where
  -- What the network has been given when all of them are answered, in their order.
  abbrev pub replied : (ℕ → List ℕ → L → L) → List (Incoming × List ℕ) → L → L
  replied push [] l = l
  replied push ((m, reply) ∷ rs) l = replied push rs (push m.id reply l)

  -- The state in which the engine ends.
  pub record Served (push : ℕ → List ℕ → L → L) (rs : List (Incoming × List ℕ))
      (s t : Multiserver L) : Type 0 where
    pub replies : t.link ≡ replied push rs s.link
    pub no_leak : t.live ≡ s.live
    pub waiting : t.binding_list ≡ stays false s.binding_list
    pub down : t.is_shutdown ≡ true
    pub same_table : t.table ≡ s.table

module _ {L : Type 0} (net : Network L) (k : Aleph) where
  module _ (f : Functions L) (push : ℕ → List ℕ → L → L) where
    -- The requests that arrive, each with its reply.
    abbrev pub AllAnswered :
        List (Option Service) → List BindingNode → List (Incoming × List ℕ) → Type 0
    AllAnswered table waiting [] = Unit {0}
    AllAnswered table waiting ((m, reply) ∷ rs) =
        IsAnswered net k f push table waiting reply m × AllAnswered table waiting rs

  module _ (f : Functions L) where
    stop_taken :
        (before : Option ℕ) (m : Incoming) (s : Multiserver L)
        → s.is_shutdown ≡ false
        → IsStop m
        → take_message f k before m s ≡ (
          done none,
          record s {
            dispatched_message_id = m.id;
            is_shutdown = true;
            binding_list = stays false s.binding_list;
            freed = s.freed ++ freed_by false s.binding_list;
          },
        )
    unfolding take_message new_binding dispatcher take_out encode_entry gservices.Wire.word
    stop_taken before m s up stop =
        let read : decode_entry (encode_entry shutdown_message) ≡ some (shutdown_message, []) =
          decode_entry-encode_entry shutdown_message [] (omega arith) in
        let freeing =
          dlink_freeing_lem
            (record s { dispatched_message_id = m.id; live = m.message ∷ s.live }) in
        let flags = stop.flags in
        let body = stop.body in
        let size = stop.body_size in ground (arith, read, freeing, flags, body, size)

    engine_over :
        (before : Option ℕ) (later : List Incoming) (s : Multiserver L)
        → s.is_shutdown ≡ true
        → locator_deamon_engine f k before later s ≡ (done tt, s)
    unfolding locator_deamon_engine
    engine_over before [] s down = ground arith
    engine_over before (m ∷ ms) s down = ground arith

    -- A server whose services are all registered serves the requests that arrive until the message
    -- for the shutdown: if a service of its table answers each, then the engine ends, whatever
    -- arrives later, the network has been given the reply to each request under its id and in
    -- their order, no block of a message is left, and of the bindings only those are left that other
    -- threads keep busy.
    pub locator_deamon_engine_serves :
        (push : ℕ → List ℕ → L → L) (before : Option ℕ) (rs : List (Incoming × List ℕ))
        (stop : Incoming) (later : List Incoming) (s : Multiserver L)
        → ((bytes : List ℕ) (id : ℕ) (l : L)
            → net.rpc_send_reply bytes id l ≡ (done tt, push id bytes l))
        → s.is_shutdown ≡ false
        → s.registered_services ≡ s.number_of_services
        → AllAnswered f push s.table (stays false s.binding_list) rs
        → IsStop stop
        → (t : Multiserver L) × (locator_deamon_engine f k before (messages rs (stop ∷ later)) s
            ≡ (done tt, t))
          × Served push rs s t
    unfolding locator_deamon_engine
    locator_deamon_engine_serves push before [] stop later s goes up all r is =
        let taken = stop_taken before stop s up is in
        let after : Multiserver L = record s {
          dispatched_message_id = stop.id;
          is_shutdown = true;
          binding_list = stays false s.binding_list;
          freed = s.freed ++ freed_by false s.binding_list;
        } in
        let over = engine_over none later after refl in
        (
          after,
          ground (arith, up, taken, over),
          record { replies = refl; no_leak = refl; waiting = refl; down = refl; same_table = refl },
        )
    locator_deamon_engine_serves push before ((m, reply) ∷ rs) stop later s goes up all r is =
        let next : Multiserver L = after_answer push reply m s in
        let taken = request_answered net k f push before m reply s goes up all r.0 in
        let same : stays false next.binding_list ≡ stays false s.binding_list =
          ground (arith, up, stays_idle s.binding_list m) in
        let (t, runs, served) =
          locator_deamon_engine_serves push (some m.binding_point) rs stop later next goes up all
            (subst (λ w. AllAnswered f push s.table w rs) (sym same) r.1) is in
        (
          t,
          ground (arith, up, taken, runs),
          record {
            replies = served.replies;
            no_leak = served.no_leak;
            waiting = served.waiting ∙ same;
            down = served.down;
            same_table = served.same_table;
          },
        )
