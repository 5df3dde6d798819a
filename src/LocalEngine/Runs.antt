-- ===== src/LocalEngine/Runs.antt =====
-- Runs of the engine of include/local_reception_point.C and its bookkeeping of clients.
use gservices.Base.{
  ℕ, zero, suc, ◌≡◌, refl, List, [], ◌∷◌, Option, none, some, Bool, true, false, M, Aleph, Outcome,
  if-either, pure, after, after_keeps, after_gives, choice_keeps, option_keeps, ltb, arith,
  get_elem?, Bool-cases, inl, inr,
}
use gservices.Readwrite.{ret, minus_one, Ssize}
use gservices.LocalReception.{Sockets, Blocks, read_request}
use gservices.Dispatcher.{Server, dispatcher}
use gservices.LocalEngine.{
  Engine, Round, fd_setsize, on_point, first_free, none_left, add_client, accept_client, disconnect,
  serve, visit_entry, visit, scan, round, close_entry, close_all, deamon_engine,
}
use gservices.LocalEngine.Clients.{
  IsValid, IsNew, elsewhere_keeps, none_left_keeps, add_client_keeps, disconnect_keeps,
}

-- A failed ASSERT stops the process.
module _ (server : Server Sockets) (k : Aleph) (stops : k.assert_stops ≡ true) where
  accept_client_keeps :
      (r : Round) (e : Engine) (c : Ssize)
      → r.connfd ≡ c
      → ((n : ℕ) → r.connfd ≡ ret n → IsNew e n)
      → IsValid e
      → IsValid (accept_client k r e).1
  unfolding accept_client
  accept_client_keeps r e minus_one h new v = rw h rw stops v
  accept_client_keeps r e (ret n) h new v =
      elim (Bool-cases (ltb (first_free e.client) fd_setsize)) [
        | inl room ↦
            let added : IsValid (add_client n e).1 =
              add_client_keeps n e (new n h) (ground (arith, room)) v in
            let kept : IsValid (after (add_client n e) (λ _. none_left)).1 =
              after_keeps IsValid (add_client n e) (λ _. none_left) added (λ _. none_left_keeps) in
            rw h rw room kept
        | inr full ↦ rw h rw full rw stops v
      ]

  serve_keeps :
      (i sockfd : ℕ) (blocks : Blocks) (e : Engine)
      → get_elem? e.client i ≡ some (some sockfd)
      → IsValid e
      → IsValid (serve server k i sockfd blocks e).1
  unfolding serve
  serve_keeps i sockfd blocks e here v =
      after_gives (λ e'. IsValid e' × (get_elem? e'.client i ≡ some (some sockfd))) IsValid
        (on_point (read_request sockfd e.entry_msg blocks) _) _
        (elsewhere_keeps _ e.entry_msg e.nready e v, here) (λ _ p. p.0)
        λ (contents, message) e' (v', here').
          let read = elsewhere_keeps e'.point contents e'.nready e' v' in
          option_keeps IsValid message _ _ (record e' { entry_msg = contents })
            (after_keeps {B = Bool} IsValid
              (disconnect i sockfd (record e' { entry_msg = contents })) (λ _. pure false)
              (disconnect_keeps i sockfd (record e' { entry_msg = contents }) here' read)
              (λ _ _ w. w))
            (λ bytes.
              after_keeps IsValid
                (on_point (dispatcher server k blocks.binding_point blocks.message bytes)
                  (record e' { entry_msg = contents }))
                _ (elsewhere_keeps _ contents e'.nready e' v') (λ _. none_left_keeps))

  visit_entry_keeps :
      (r : Round) (i : ℕ) (c : Option (Option ℕ)) (e : Engine)
      → get_elem? e.client i ≡ c
      → IsValid e
      → IsValid (visit_entry server k r i c e).1
  unfolding visit_entry
  visit_entry_keeps r i none e h v = v
  visit_entry_keeps r i (some none) e h v = v
  visit_entry_keeps r i (some (some fd)) e h v =
      choice_keeps IsValid (r.rset fd) (serve server k i fd (r.blocks i)) _ e
        (serve_keeps i fd (r.blocks i) e h v) v

  scan_keeps : (r : Round) (i n : ℕ) (e : Engine) → IsValid e → IsValid (scan server k r i n e).1
  unfolding scan visit
  scan_keeps r i zero e v = v
  scan_keeps r i (suc n) e v =
      after_keeps IsValid (visit server k r i e) _
        (visit_entry_keeps r i (get_elem? e.client i) e refl v)
        λ stop e' v'.
          choice_keeps IsValid stop _ (scan server k r (suc i) n) e' v'
            (scan_keeps r (suc i) n e' v')

  round_keeps :
      (r : Round) (e : Engine)
      → ((n : ℕ) → r.connfd ≡ ret n → IsNew e n)
      → IsValid e
      → IsValid (round server k r e).1
  unfolding round
  round_keeps r e new v =
      let ready = elsewhere_keeps e.point e.entry_msg r.nready e v in
      after_keeps IsValid
        ((elim (r.rset e.listen_descriptor) as (λ _. M Engine Bool) [
          | true ↦ accept_client k r
          | false ↦ pure false
        ])
          (record e { nready = r.nready }))
        _
        (choice_keeps IsValid (r.rset e.listen_descriptor) (accept_client k r) _
          (record e { nready = r.nready })
          (accept_client_keeps r (record e { nready = r.nready }) r.connfd refl new ready) ready)
        λ continues e' v'. choice_keeps IsValid continues _ _ e' v' (scan_keeps r 0 e'.used e' v')

  -- Every `accept` of a run of the engine returns a descriptor that is not open then.
  abbrev pub AcceptsNew : List Round → Engine → Type 0
  AcceptsNew [] e = Unit
  AcceptsNew (r ∷ rs) e =
      ((n : ℕ) → r.connfd ≡ ret n → IsNew e n) × AcceptsNew rs (round server k r e).1

  close_entry_keeps : (c : Option (Option ℕ)) (e : Engine) → IsValid e → IsValid (close_entry c e).1
  unfolding close_entry
  close_entry_keeps none e v = v
  close_entry_keeps (some none) e v = v
  close_entry_keeps (some (some fd)) e v = elsewhere_keeps _ e.entry_msg e.nready e v

  close_all_keeps : (i n : ℕ) (e : Engine) → IsValid e → IsValid (close_all i n e).1
  unfolding close_all
  close_all_keeps i zero e v = v
  close_all_keeps i (suc n) e v =
      after_keeps IsValid (close_entry (get_elem? e.client i) e) (λ _. close_all (suc i) n)
        (close_entry_keeps (get_elem? e.client i) e v) (λ _. close_all_keeps (suc i) n)

  -- If a failed ASSERT stops the process and `accept` returns descriptors that are not open, the
  -- engine's bookkeeping is right at the end of every run of it, however the run ends: each entry
  -- of `client` is below `maxi + 1` and holds another connection, which is in `allset`, is not the
  -- listening socket and is at most `maxfd`.
  pub deamon_engine-IsValid :
      (rs : List Round) (e : Engine)
      → AcceptsNew rs e
      → IsValid e
      → IsValid (deamon_engine server k rs e).1
  unfolding deamon_engine
  deamon_engine-IsValid [] e new v =
      let closed = close_all_keeps 0 e.used e v in
      if-either (λ (x : Outcome (Unit {0}) × Engine). IsValid x.1) e.point.is_shutdown closed v
  deamon_engine-IsValid (r ∷ rs) e new v =
      let closed = close_all_keeps 0 e.used e v in
      let rest : IsValid (after (round server k r e) (λ _. deamon_engine server k rs)).1 =
        after_gives (λ e'. IsValid e' × AcceptsNew rs e') IsValid (round server k r e) _
          (round_keeps r e new.0 v, new.1) (λ _ p. p.0)
          (λ _ e' p. deamon_engine-IsValid rs e' p.1 p.0) in
      if-either (λ (x : Outcome (Unit {0}) × Engine). IsValid x.1) e.point.is_shutdown closed rest
