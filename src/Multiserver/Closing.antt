-- ===== src/Multiserver/Closing.antt =====
-- `shutdown` of include/remote_multiserver_point.H while the thread of its engine serves what has
-- arrived.
use gservices.Base.{
  ℕ, ◌≡◌, refl, List, [], ◌∷◌, ◌++◌, Option, some, true, false, M, Aleph, done, arith, append_assoc,
}
use gservices.Message.{decode_entry, encode_entry, shutdown_message}
use gservices.Message.Layout.{decode_entry-encode_entry}
use gservices.Multiserver.{Service, BindingNode, Multiserver, Network}
use gservices.Multiserver.Sender.{async_send, sending_check}
use gservices.Multiserver.Engine.{
  Functions, Incoming, locator_deamon_engine, services_of, shut_down, destroy_point,
}
use gservices.Multiserver.Bindings.{stays, freed_by, dlink_freeing_lem}
use gservices.Multiserver.Answers.{stays-all}
use gservices.Multiserver.Runs.{
  AllAnswered, replied, messages, IsStop, locator_deamon_engine_serves,
}

module _ {L : Type 0} where
  -- What is left of a server that has been shut down.
  pub record Closed (table : List (Option Service)) (waiting : List BindingNode) (link : L)
      (live : List ℕ) (t : Multiserver L) : Type 0 where
    pub replies : t.link ≡ link
    pub no_leak : t.live ≡ live
    pub down : t.is_shutdown ≡ true
    pub no_table : t.table ≡ []
    pub no_binding : t.binding_list ≡ []
    pub earlier : List ℕ
    pub deleted : t.freed ≡ earlier ++ (services_of table ++ freed_by true waiting)

module _ {L : Type 0} (net : Network L) (k : Aleph) where
  shutdown_sent :
      (port id : ℕ) (s : Multiserver L) (l : L)
      → net.send_message port (encode_entry shutdown_message) s.link ≡ (done id, l)
      → async_send net k port (encode_entry shutdown_message) s ≡ (done tt, record s { link = l })
  unfolding async_send sending_check encode_entry gservices.Wire.word
  shutdown_sent port id s l sent =
      let read : decode_entry (encode_entry shutdown_message) ≡ some (shutdown_message, []) =
        decode_entry-encode_entry shutdown_message [] (omega arith) in
      ground (arith, read, sent)

  closing :
      (wait : M (Multiserver L) (Unit {0})) (port : ℕ) (s sent served : Multiserver L)
      → s.is_shutdown ≡ false
      → sent.is_shutdown ≡ false
      → async_send net k port (encode_entry shutdown_message) s ≡ (done tt, sent)
      → wait sent ≡ (done tt, served)
      → served.is_shutdown ≡ true
      → shut_down net k wait port s ≡ (
        done tt,
        record served {
          table = [];
          binding_list = [];
          freed = (served.freed ++ services_of served.table) ++ freed_by true served.binding_list;
        },
      )
  unfolding shut_down
  closing wait port s sent served up still goes waits down =
      let freeing =
        dlink_freeing_lem
          (record served { table = []; freed = served.freed ++ services_of served.table }) in
      let all = stays-all served.binding_list in
      ground (arith, up, still, goes, waits, down, freeing, all)

  gone :
      (wait : M (Multiserver L) (Unit {0})) (port : ℕ) (t : Multiserver L)
      → t.is_shutdown ≡ true
      → destroy_point net k wait port t ≡ (done tt, t)
  unfolding destroy_point
  gone wait port t down = ground (arith, down)

  -- A server whose services are all registered is shut down while its engine still has requests to
  -- serve, each of which a service of its table answers, and the network takes what is sent. Then
  -- `shutdown`, which waits for the engine to take its message, returns; by then each of these
  -- requests has been answered, in their order, no block of a message is left, and the
  -- services of the table have been deleted, and after them every binding, those that other threads
  -- keep busy too. The destructor then does nothing more.
  pub shut_down_serves :
      (f : Functions L) (push : ℕ → List ℕ → L → L) (before : Option ℕ)
      (rs : List (Incoming × List ℕ)) (stop : Incoming) (later : List Incoming) (port id : ℕ)
      (s : Multiserver L) (l : L)
      → ((bytes : List ℕ) (id' : ℕ) (l' : L)
          → net.rpc_send_reply bytes id' l' ≡ (done tt, push id' bytes l'))
      → s.is_shutdown ≡ false
      → s.registered_services ≡ s.number_of_services
      → AllAnswered net k f push s.table (stays false s.binding_list) rs
      → IsStop stop
      → net.send_message port (encode_entry shutdown_message) s.link ≡ (done id, l)
      → (t : Multiserver L) × (shut_down net k
            (locator_deamon_engine f k before (messages rs (stop ∷ later)))
            port
            s
          ≡ (done tt, t))
        × Closed s.table (stays false s.binding_list) (replied push rs l) s.live t
        × (destroy_point net k
              (locator_deamon_engine f k before (messages rs (stop ∷ later)))
              port
              t
            ≡ (done tt, t))
  shut_down_serves f push before rs stop later port id s l goes up all r is out =
      let sent : Multiserver L = record s { link = l } in
      let (served, runs, good) =
        locator_deamon_engine_serves net k f push before rs stop later sent goes up all r is in
      let wait : M (Multiserver L) (Unit {0}) =
        locator_deamon_engine f k before (messages rs (stop ∷ later)) in
      let ends =
        closing wait port s sent served up up (shutdown_sent port id s l out) runs good.down in
      (
        _,
        ends,
        record {
          replies = good.replies;
          no_leak = good.no_leak;
          down = good.down;
          no_table = refl;
          no_binding = refl;
          earlier = served.freed;
          deleted =
              rw (good.same_table, good.waiting)
                (append_assoc served.freed (services_of s.table)
                  (freed_by true (stays false s.binding_list)));
        },
        gone wait port _ good.down,
      )
