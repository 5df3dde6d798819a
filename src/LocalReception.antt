-- ===== src/LocalReception.antt =====
-- include/local_reception_point.H and include/local_reception_point.C: how the local server takes
-- one request from a client's socket.
pub mod Framing
pub mod Overflow
pub mod Quiet
use gservices.Base.{
  ℕ, zero, suc, ◌+◌, ◌==◌, if◌then◌else◌, ltb, leb, List, [], ◌∷◌, ◌++◌, Option, none, some, Bool,
  true, false, M, Aleph, Outcome, done, stopped, blocked, out_of_bounds, pure, stop, ◌>>=◌, ◌>>◌,
  length, take, drop,
}
use gservices.Wire.{u32}
use gservices.Readwrite.{Ssize, ReadAnswer, ReadResult, WriteAnswer, WriteResult, readn, writen}
use gservices.Message.{MsgEntryHeader, header_size, entry_at}
use gservices.Access.{overwrite, is_zero}
use gservices.Reception.{BindingNode, ReceptionPoint, via, insert_next}

-- The connections of the process, by descriptor: what each will answer, and what it was sent.
pub record Sockets : Type 0 where
  pub reads : ℕ → List ReadAnswer
  pub writes : ℕ → List WriteAnswer
  pub sent : ℕ → List ℕ
  pub closed : ℕ → Bool

abbrev pub update {ℓ} : {A : Type ℓ} → (ℕ → A) → ℕ → A → ℕ → A
update f fd a j = if fd == j then a else f j

-- `Local_Readwrite::readn` and `Local_Readwrite::writen` on a descriptor.
unfoldable pub socket_readn : ℕ → ℕ → M Sockets (Ssize × List ℕ)
socket_readn fd n s = elim (readn (s.reads fd) n) [
  | none ↦ (blocked, s)
  | some r ↦ (done (r.status, r.stored), record s { reads = update s.reads fd r.rest })
]

unfoldable pub socket_writen : ℕ → List ℕ → M Sockets Ssize
socket_writen fd buffer s = elim (writen (s.writes fd) buffer) [
  | none ↦ (blocked, s)
  | some r ↦ (
    done r.status,
    record s { writes = update s.writes fd r.rest; sent = update s.sent fd (s.sent fd ++ r.sent) },
  )
]

-- `close`
abbrev pub close : ℕ → M Sockets (Unit {0})
close fd s = (done tt, record s { closed = update s.closed fd true })

-- The addresses that `malloc` and `new` return while a request is taken, and what the block of the
-- message holds before it is written.
pub record Blocks : Type 0 where
  pub message : ℕ
  pub binding_point : ℕ
  pub node : ℕ
  pub contents : ℕ → ℕ

-- The first `size` bytes of such a block, from byte `i` on.
unfoldable pub block : (ℕ → ℕ) → ℕ → ℕ → List ℕ
block contents i zero = []
block contents i (suc n) = contents i ∷ block contents (suc i) n

-- `memcpy(memory + offset, bytes, ...)` and its like: a write that ends outside is a fault.
unfoldable pub store : List ℕ → ℕ → List ℕ → {S : Type 0} → M S (List ℕ)
store memory offset bytes =
    if leb (offset + length bytes) (length memory)
    then pure (take offset memory ++ (bytes ++ drop (offset + length bytes) memory))
    else stop out_of_bounds

-- `if (size != 0) readn(sockfd, message + offset, size)`: the status is not looked at.
unfoldable pub read_part : ℕ → List ℕ → ℕ → ℕ → M (ReceptionPoint Sockets) (List ℕ)
unfolding socket_readn store
read_part sockfd memory offset size = elim (size == 0) [
  | true ↦ pure memory
  | false ↦ do (_, stored) ← via (socket_readn sockfd size); store memory offset stored
]

-- A new entry of the list: the service has not been accomplished.
abbrev pub new_node : ℕ → Blocks → BindingNode
new_node sockfd blocks = record {
  node = blocks.node;
  binding_point = blocks.binding_point;
  message = blocks.message;
  still_busy = true;
  request_message = none;
  peer = sockfd;
}

-- From `malloc` to the end of the branch for a client that has sent something.
unfoldable pub read_message :
    ℕ → List ℕ → MsgEntryHeader → Blocks → M (ReceptionPoint Sockets) (List ℕ)
read_message sockfd entry_msg header blocks = do
  let size = u32 (header_size + header.parameters_size + header.invocation_size)
  insert_next (new_node sockfd blocks)
  m1 ← store (block blocks.contents 0 size) 0 entry_msg
  m2 ← read_part sockfd m1 header_size header.parameters_size
  read_part sockfd m2 (header_size + header.parameters_size) header.invocation_size

-- One request: the header goes into the array `entry_msg`, which is kept between requests. No
-- message: the client has closed the connection.
unfoldable pub read_request :
    ℕ → List ℕ → Blocks → M (ReceptionPoint Sockets) (List ℕ × Option (List ℕ))
unfolding entry_at
read_request sockfd entry_msg blocks = do
  (status, stored) ← via (socket_readn sockfd header_size)
  elim (is_zero status) [
    | true ↦ pure (overwrite stored entry_msg, none)
    | false ↦ do
      (header, _) ← entry_at (overwrite stored entry_msg)
      message ← read_message sockfd (overwrite stored entry_msg) header blocks
      pure (overwrite stored entry_msg, some message)
  ]

-- The loop of `unmark_local_binding_from_waiting_list`: the first binding of the socket.
unfoldable pub unmark_loop : ℕ → List BindingNode → List BindingNode
unmark_loop closed_socket [] = []
unmark_loop closed_socket (b ∷ bs) =
    if b.peer == closed_socket
    then record b { still_busy = false } ∷ bs
    else b ∷ unmark_loop closed_socket bs

unfoldable pub unmark_local_binding_from_waiting_list : ℕ → M (ReceptionPoint Sockets) (Unit {0})
unfolding unmark_loop
unmark_local_binding_from_waiting_list closed_socket s =
    (done tt, record s { binding_list = unmark_loop closed_socket s.binding_list })
