-- ===== src/LocalEngine/Closing.antt =====
-- The end of the engine of include/local_reception_point.C: a message for the shutdown, and the loop
-- that closes the connections.
use gservices.Base.{
  ℕ, zero, suc, ◌+◌, ◌≤◌, ◌<◌, ◌≡◌, ◌∙◌, refl, ap, sym, List, [], ◌∷◌, ◌++◌, Option, none, some,
  Bool, true, false, Aleph, done, arith, length, get_elem?, get_elem?-some, after, if◌then◌else◌,
  inl, inr, ltb_cases, append-nil,
}
use gservices.Readwrite.{ret}
use gservices.Readwrite.Stream.{stream}
use gservices.Message.{encode_entry, shutdown_message, header_size}
use gservices.Message.Layout.{decode_entry-encode_entry}
use gservices.Reception.{BindingNode, ReceptionPoint, binding_list_freeing_fct}
use gservices.Binding.{find_binding, update_binding}
use gservices.Dispatcher.{Server}
use gservices.Dispatcher.Actions.{dispatcher_shuts_down}
use gservices.LocalReception.{Sockets, new_node, update}
use gservices.LocalReception.Framing.{PartsFit}
use gservices.LocalEngine.{Engine, Round, none_left, round, close_entry, close_all, deamon_engine}
use gservices.LocalEngine.Clients.{IsValid, elsewhere_keeps}
use gservices.LocalEngine.Serves.{Waits, scan_serves, goes_on, dispatched}

abbrev pub with_closed : (ℕ → Bool) → Engine → Engine
with_closed c e = record e {
  point = record (e.point) { link = record (e.point.link) { closed = c } };
}

close_entry_lem :
    (o : Option ℕ) (e : Engine)
    → (c : ℕ → Bool) × (close_entry (some o) e ≡ (done tt, with_closed c e))
      × ((fd : ℕ) → e.point.link.closed fd ≡ true → c fd ≡ true)
      × ((fd : ℕ) → o ≡ some fd → c fd ≡ true)
unfolding close_entry
close_entry_lem none e =
    (e.point.link.closed, refl, (λ fd h. h), λ fd h. absurd (ground (arith, h)))
close_entry_lem (some sockfd) e =
    (update e.point.link.closed sockfd true, refl, (λ fd h. ground arith), λ fd h. ground arith)

-- The entries of `client` from one index up to another are closed at the end.
pub close_all_lem :
    (i n : ℕ) (e : Engine)
    → i + n ≤ length e.client
    → (c : ℕ → Bool) × (close_all i n e ≡ (done tt, with_closed c e))
      × ((fd : ℕ) → e.point.link.closed fd ≡ true → c fd ≡ true)
      × ((j fd : ℕ) → i ≤ j → j < i + n → get_elem? e.client j ≡ some (some fd) → c fd ≡ true)
unfolding close_all
close_all_lem i zero e inside =
    (e.point.link.closed, refl, (λ fd h. h), λ j fd from to h. absurd (omega (arith, from, to)))
close_all_lem i (suc n) e inside =
    let (o, there) = get_elem?-some e.client i (omega arith) in
    let (c, first, keeps, closes) = close_entry_lem o e in
    let (c', rest, keeps', closes') = close_all_lem (suc i) n (with_closed c e) (omega arith) in
    (
      c',
      rw there (ap (λ x. after x (λ _. close_all (suc i) n)) first ∙ rest),
      (λ fd h. keeps' fd (keeps fd h)),
      λ j fd from to h. elim (ltb_cases i j) [
        | inl (above, _) ↦ closes' j fd above (omega arith) h
        | inr (below, _) ↦
            let same : i ≡ j = omega (arith, from, below) in
            keeps' fd (closes fd (ground (arith, there, h, same)))
      ],
    )

module _ (server : Server Sockets) (k : Aleph) where
  only_closes :
      (rs : List Round) (e : Engine)
      → e.point.is_shutdown ≡ true
      → deamon_engine server k rs e ≡ close_all 0 e.used e
  unfolding deamon_engine
  only_closes [] e down = ground (arith, down)
  only_closes (r ∷ rs) e down = ground (arith, down)

  turn :
      (r : Round) (rs : List Round) (e : Engine)
      → e.point.is_shutdown ≡ false
      → deamon_engine server k (r ∷ rs) e
        ≡ after (round server k r e) (λ _. deamon_engine server k rs)
  unfolding deamon_engine
  turn r rs e up =
      ap
        (λ (b : Bool).
          if b
          then close_all 0 e.used e
          else after (round server k r e) (λ _. deamon_engine server k rs))
        up

  -- Once the flag is raised, the engine closes the connections and ends.
  engine_closes :
      (rs : List Round) (e : Engine)
      → IsValid e
      → e.point.is_shutdown ≡ true
      → (c : ℕ → Bool) × (deamon_engine server k rs e ≡ (done tt, with_closed c e))
        × ((j fd : ℕ) → get_elem? e.client j ≡ some (some fd) → c fd ≡ true)
  engine_closes rs e v down =
      let sized = v.sized in
      let bounded = v.bounded in
      let (c, ends, keeps, closes) = close_all_lem 0 e.used e (omega arith) in
      (
        c,
        only_closes rs e down ∙ ends,
        λ j fd h. closes j fd (omega arith) (omega (arith, v.below j fd h)) h,
      )

  module _ (r : Round) (i fd : ℕ) (later : List ℕ) where
    -- The entry of the message for the shutdown.
    abbrev pub stop_node : BindingNode
    stop_node = record (new_node fd (r.blocks i)) { still_busy = false }

    stop_dispatched :
        (e x : Engine) (bs : List BindingNode)
        → x.nready ≡ ret 1
        → x.point.binding_list ≡ new_node fd (r.blocks i) ∷ bs
        → dispatched server k r i fd shutdown_message [] [] later e x ≡ (
          done true,
          record x {
            nready = ret 0;
            point = record (x.point) { is_shutdown = true; binding_list = stop_node ∷ bs };
          },
        )
    unfolding none_left find_binding update_binding encode_entry gservices.Wire.word
    stop_dispatched e x bs ready first =
        let read = decode_entry-encode_entry shutdown_message [] (omega arith) in
        let found : find_binding (r.blocks i).binding_point x.point.binding_list
            ≡ some (new_node fd (r.blocks i)) =
          ground (arith, first) in
        let stops =
          dispatcher_shuts_down server k (r.blocks i).binding_point (r.blocks i).message
            shutdown_message (encode_entry shutdown_message) [] x.point (new_node fd (r.blocks i))
            read refl found in
        ground (arith, stops, first, ready)

    -- What the engine has become when the message has been taken.
    abbrev pub stopped_engine : Sockets → Engine → Engine
    stopped_engine l e = record e {
      nready = ret 0;
      entry_msg = encode_entry shutdown_message;
      point = record ((binding_list_freeing_fct e.point).1) {
        link = l;
        is_shutdown = true;
        binding_list = stop_node ∷ (binding_list_freeing_fct e.point).1.binding_list;
      };
    }

    round_stops :
        (n : ℕ) (e : Engine)
        → r.rset e.listen_descriptor ≡ false
        → r.nready ≡ ret 1
        → e.used ≡ i + suc n
        → ((m : ℕ) → m < i → Waits r (get_elem? e.client m))
        → get_elem? e.client i ≡ some (some fd)
        → r.rset fd ≡ true
        → length e.entry_msg ≡ header_size
        → stream (e.point.link.reads fd) ≡ encode_entry shutdown_message ++ later
        → (l : Sockets) × (round server k r e ≡ (done tt, stopped_engine l e))
    unfolding round
    round_stops n e quiet one used before there ready sized arrives =
        let e1 : Engine = record e { nready = r.nready } in
        let fit : PartsFit shutdown_message [] [] = record {
          words = omega arith;
          parameters_counted = refl;
          invocation_counted = refl;
          total_fits = omega arith;
        } in
        let whole : encode_entry shutdown_message ++ ([] ++ []) ≡ encode_entry shutdown_message =
          append-nil (encode_entry shutdown_message) in
        let (l, scans, _) =
          scan_serves server k r i fd shutdown_message [] [] later e1 n used before there ready
            sized fit (arrives ∙ ap (λ (x : List ℕ). x ++ later) (sym whole)) in
        let p : ReceptionPoint Sockets = (binding_list_freeing_fct e.point).1 in
        let stops =
          stop_dispatched e1
            (record e1 {
              entry_msg = encode_entry shutdown_message;
              point = record p {
                link = l;
                binding_list = new_node fd (r.blocks i) ∷ p.binding_list;
              };
            })
            p.binding_list one refl in
        (l, rw quiet (scans ∙ ap (goes_on server k r i fd shutdown_message [] [] later e1 n) stops))

    -- The server runs, no client is new, one descriptor is ready, and a client has sent a whole
    -- message for the shutdown on it. Then the engine takes this message, raises the flag and ends,
    -- whatever comes later, and it has closed the connection of every client.
    pub deamon_engine_closes :
        (n : ℕ) (rs : List Round) (e : Engine)
        → IsValid e
        → e.point.is_shutdown ≡ false
        → r.rset e.listen_descriptor ≡ false
        → r.nready ≡ ret 1
        → e.used ≡ i + suc n
        → ((m : ℕ) → m < i → Waits r (get_elem? e.client m))
        → get_elem? e.client i ≡ some (some fd)
        → r.rset fd ≡ true
        → length e.entry_msg ≡ header_size
        → stream (e.point.link.reads fd) ≡ encode_entry shutdown_message ++ later
        → (t : Engine) × (deamon_engine server k (r ∷ rs) e ≡ (done tt, t))
          × (t.point.is_shutdown ≡ true)
          × ((j fd' : ℕ) → get_elem? e.client j ≡ some (some fd') → t.point.link.closed fd' ≡ true)
    deamon_engine_closes n rs e v up quiet one used before there ready sized arrives =
        let (l, stops) = round_stops n e quiet one used before there ready sized arrives in
        let e' : Engine = stopped_engine l e in
        let valid : IsValid e' = elsewhere_keeps e'.point e'.entry_msg e'.nready e v in
        let (c, ends, closes) = engine_closes rs e' valid refl in
        (
          with_closed c e',
          turn r rs e up ∙ ap (λ x. after x (λ _. deamon_engine server k rs)) stops ∙ ends,
          refl,
          closes,
        )
