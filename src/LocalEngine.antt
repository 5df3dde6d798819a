-- ===== src/LocalEngine.antt =====
-- `Local_Reception_Point::deamon_engine` of include/local_reception_point.C: the loop that accepts
-- connections and takes the clients' requests.
pub mod Clients
pub mod Runs
pub mod Serves
pub mod Answers
pub mod Closing
pub mod Disconnect
pub mod Turns
use gservices.Base.{
  ℕ, zero, suc, ◌+◌, ◌-◌, ◌==◌, if◌then◌else◌, ltb, leb, List, [], ◌∷◌, ◌++◌, Option, none, some,
  Bool, true, false, M, Aleph, Outcome, done, stopped, blocked, out_of_bounds, pure, get, stop,
  assert, ◌>>=◌, ◌>>◌, length, get_elem?, set, replicate,
}
use gservices.Readwrite.{Ssize, ret, minus_one}
use gservices.Reception.{ReceptionPoint, via, binding_list_freeing_fct}
use gservices.LocalReception.{
  Sockets, Blocks, update, close, read_request, unmark_local_binding_from_waiting_list,
}
use gservices.Dispatcher.{Server, dispatcher}

abbrev pub fd_setsize : ℕ
fd_setsize = 1024

-- The local variables of the engine, and the reception point. An entry of `client` is NULL for -1,
-- `allset` is the set of descriptors, and `used` is `maxi + 1`.
pub record Engine : Type 0 where
  pub point : ReceptionPoint Sockets
  pub listen_descriptor : ℕ
  pub client : List (Option ℕ)
  pub allset : ℕ → Bool
  pub used : ℕ
  pub maxfd : ℕ
  pub entry_msg : List ℕ
  pub nready : Ssize

-- What the system calls answer while the body of the loop runs once: `select`, `accept`, and the
-- allocations for the request of each entry of `client`.
pub record Round : Type 0 where
  pub rset : ℕ → Bool
  pub nready : Ssize
  pub connfd : Ssize
  pub blocks : ℕ → Blocks

-- Up to the head of the loop; `contents` is what the array `entry_msg` held.
abbrev pub engine : ReceptionPoint Sockets → ℕ → List ℕ → Engine
engine point listen_descriptor contents = record {
  point = point;
  listen_descriptor = listen_descriptor;
  client = replicate fd_setsize none;
  allset = update (λ _. false) listen_descriptor true;
  used = 0;
  maxfd = listen_descriptor;
  entry_msg = contents;
  nready = ret 0;
}

abbrev on_engine : {A : Type 0} → Engine → Outcome A × ReceptionPoint Sockets → Outcome A × Engine
on_engine e (o, p) = (o, record e { point = p })

-- A call that works on the reception point.
abbrev pub on_point : {A : Type 0} → M (ReceptionPoint Sockets) A → M Engine A
on_point m e = on_engine e (m e.point)

-- The first entry of `client` that is -1, or the length: the value of `i` after the loop.
unfoldable pub first_free : List (Option ℕ) → ℕ
first_free [] = 0
first_free (none ∷ cs) = 0
first_free (some _ ∷ cs) = suc (first_free cs)

-- `--nready <= 0`
unfoldable pub none_left : M Engine Bool
none_left e = elim e.nready [
  | minus_one ↦ (done true, e)
  | ret n ↦ (done (leb n 1), record e { nready = ret (n - 1) })
]

-- `client[i] = connfd` and `FD_SET` up to `maxi = i`. The loop that looks for `i` writes nothing if
-- there is no free entry.
unfoldable pub add_client : ℕ → M Engine (Unit {0})
unfolding first_free
add_client connfd e = (
  if ltb connfd fd_setsize then done tt else stopped out_of_bounds,
  record e {
    client = set e.client (first_free e.client) (some connfd);
    allset = update e.allset connfd true;
    maxfd = if ltb e.maxfd connfd then connfd else e.maxfd;
    used = if leb e.used (first_free e.client) then suc (first_free e.client) else e.used;
  },
)

-- The branch for a new client; the result tells whether it ends with `continue`.
unfoldable pub accept_client : Aleph → Round → M Engine Bool
unfolding first_free none_left add_client
accept_client k r = elim r.connfd [
  | minus_one ↦ do assert k false; stop out_of_bounds
  | ret connfd ↦ do
    e ← get
    assert k (ltb (first_free e.client) fd_setsize)
    add_client connfd
    none_left
]

-- The branch for a connection that the client has closed.
unfoldable pub disconnect : ℕ → ℕ → M Engine (Unit {0})
unfolding unmark_local_binding_from_waiting_list
disconnect i sockfd = do
  on_point (via (close sockfd))
  (λ e. (done tt, record e { allset = update e.allset sockfd false; client = set e.client i none }))
  on_point (unmark_local_binding_from_waiting_list sockfd)

module _ (server : Server Sockets) (k : Aleph) where
  -- The body of the `if` for a descriptor that is ready; the result tells whether `break` ends the
  -- loop.
  unfoldable pub serve : ℕ → ℕ → Blocks → M Engine Bool
  unfolding binding_list_freeing_fct disconnect none_left
  serve i sockfd blocks = do
    on_point binding_list_freeing_fct
    e ← get
    (contents, message) ← on_point (read_request sockfd e.entry_msg blocks)
    (λ e. (done tt, record e { entry_msg = contents }))
    elim message [
      | none ↦ do disconnect i sockfd; pure false
      | some bytes ↦ do
        on_point (dispatcher server k blocks.binding_point blocks.message bytes)
        none_left
    ]

  -- The body of the loop over the clients, for an entry of `client`.
  unfoldable pub visit_entry : Round → ℕ → Option (Option ℕ) → M Engine Bool
  visit_entry r i none = stop out_of_bounds
  visit_entry r i (some none) = pure false
  visit_entry r i (some (some sockfd)) = elim (r.rset sockfd) [
    | true ↦ serve i sockfd (r.blocks i)
    | false ↦ pure false
  ]

  unfoldable pub visit : Round → ℕ → M Engine Bool
  visit r i e = visit_entry r i (get_elem? e.client i) e

  -- The loop over the clients: the next `n` values of `i`.
  unfoldable pub scan : Round → ℕ → ℕ → M Engine (Unit {0})
  scan r i zero = pure tt
  scan r i (suc n) = do stops ← visit r i; elim stops [ true ↦ pure tt | false ↦ scan r (suc i) n ]

  -- The body of the outer loop.
  unfoldable pub round : Round → M Engine (Unit {0})
  round r = do
    (λ e. (done tt, record e { nready = r.nready }))
    e ← get
    continues ← elim (r.rset e.listen_descriptor) [ true ↦ accept_client k r | false ↦ pure false ]
    elim continues [ true ↦ pure tt | false ↦ do e' ← get; scan r 0 e'.used ]

-- The loop that closes the connections at the end, for an entry of `client`.
unfoldable pub close_entry : Option (Option ℕ) → M Engine (Unit {0})
close_entry none = stop out_of_bounds
close_entry (some none) = pure tt
close_entry (some (some sockfd)) = on_point (via (close sockfd))

-- The next `n` values of `i`.
unfoldable pub close_all : ℕ → ℕ → M Engine (Unit {0})
close_all i zero = pure tt
close_all i (suc n) = do (λ e. close_entry (get_elem? e.client i) e); close_all (suc i) n

-- `deamon_engine`, for the answers of the system that are given; after them `select` waits.
unfoldable pub deamon_engine : Server Sockets → Aleph → List Round → M Engine (Unit {0})
deamon_engine server k [] e = if e.point.is_shutdown then close_all 0 e.used e else (blocked, e)
deamon_engine server k (r ∷ rs) e =
    if e.point.is_shutdown
    then close_all 0 e.used e
    else (do round server k r; deamon_engine server k rs) e
