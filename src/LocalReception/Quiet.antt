-- ===== src/LocalReception/Quiet.antt =====
-- What the calls of include/local_reception_point.C do to the sockets.
use gservices.Base.{ℕ, ◌≤◌, ◌++◌, ◌+◌, ◌∷◌, ◌≡◌, refl, List, ◌==◌, arith}
use gservices.Base.{after_keeps, choice_keeps, done, length}
use gservices.Readwrite.Output.{capacity, writen_sends}
use gservices.Readwrite.{ret}
use gservices.Message.{MsgEntryHeader, entry_at, header_size}
use gservices.Wire.{u32}
use gservices.Access.{overwrite, is_zero}
use gservices.Reception.{ReceptionPoint, via}
use gservices.LocalReception.{
  update, socket_writen, Sockets, Blocks, socket_readn, store, read_part, read_message,
  read_request, new_node, block,
}

-- What was written, what writing will answer, and which descriptors are closed.
pub record Outputs (s t : Sockets) : Type 0 where
  pub sent : t.sent ≡ s.sent
  pub writes : t.writes ≡ s.writes
  pub closed : t.closed ≡ s.closed

abbrev Keeps : Sockets → ReceptionPoint Sockets → Type 0
Keeps l s = Outputs l s.link

store-Keeps :
    (l : Sockets) (memory : List ℕ) (offset : ℕ) (bytes : List ℕ) (s : ReceptionPoint Sockets)
    → Keeps l s
    → Keeps l (store memory offset bytes s).1
unfolding store
store-Keeps l memory offset bytes s h = ground arith

socket_readn-Keeps :
    (l : Sockets) (fd n : ℕ) (s : ReceptionPoint Sockets)
    → Keeps l s
    → Keeps l (via (socket_readn fd n) s).1
unfolding socket_readn
socket_readn-Keeps l fd n s h = ground arith

read_part-Keeps :
    (l : Sockets) (fd : ℕ) (memory : List ℕ) (offset size : ℕ) (s : ReceptionPoint Sockets)
    → Keeps l s
    → Keeps l (read_part fd memory offset size s).1
unfolding read_part
read_part-Keeps l fd memory offset size s h = choice_keeps (Keeps l) (size == 0) _ _ s h (
    after_keeps (Keeps l) (via (socket_readn fd size) s) _ (socket_readn-Keeps l fd size s h)
      (λ x. store-Keeps l memory offset x.1))

read_message-Keeps :
    (l : Sockets) (fd : ℕ) (entry_msg : List ℕ) (h : MsgEntryHeader) (b : Blocks)
    (s : ReceptionPoint Sockets)
    → Keeps l s
    → Keeps l (read_message fd entry_msg h b s).1
unfolding read_message
read_message-Keeps l fd entry_msg h b s k =
    let size : ℕ = u32 (header_size + h.parameters_size + h.invocation_size) in
    let added : ReceptionPoint Sockets = record s {
      binding_list = new_node fd b ∷ s.binding_list;
    } in
    let memory : List ℕ = block b.contents 0 size in
    after_keeps (Keeps l) (store memory 0 entry_msg added) _
      (store-Keeps l memory 0 entry_msg added k)
      λ m1 s1 k1.
        after_keeps (Keeps l) (read_part fd m1 header_size h.parameters_size s1) _
          (read_part-Keeps l fd m1 header_size h.parameters_size s1 k1)
          λ m2 s2 k2.
            read_part-Keeps l fd m2 (header_size + h.parameters_size) h.invocation_size s2 k2

entry_at-Keeps :
    (l : Sockets) (bytes : List ℕ) (s : ReceptionPoint Sockets)
    → Keeps l s
    → Keeps l (entry_at bytes s).1
unfolding entry_at
entry_at-Keeps l bytes s k = ground arith

read_request-Keeps :
    (l : Sockets) (fd : ℕ) (entry_msg : List ℕ) (b : Blocks) (s : ReceptionPoint Sockets)
    → Keeps l s
    → Keeps l (read_request fd entry_msg b s).1
unfolding read_request
read_request-Keeps l fd entry_msg b s k =
    after_keeps (Keeps l) (via (socket_readn fd header_size) s) _
      (socket_readn-Keeps l fd header_size s k)
      λ x s1 k1.
        let contents : List ℕ = overwrite x.1 entry_msg in
        choice_keeps (Keeps l) (is_zero x.0) _ _ s1 k1 (
          after_keeps (Keeps l) (entry_at contents s1) _ (entry_at-Keeps l contents s1 k1)
            λ y s2 k2.
              after_keeps (Keeps l) (read_message fd contents y.0 b s2) _
                (read_message-Keeps l fd contents y.0 b s2 k2) (λ z s3 k3. k3))

-- Whatever the socket answers, only what the sockets will answer to a read has changed.
pub read_request-Outputs :
    (fd : ℕ) (entry_msg : List ℕ) (b : Blocks) (s : ReceptionPoint Sockets)
    → Outputs s.link (read_request fd entry_msg b s).1.link
read_request-Outputs fd entry_msg b s =
    read_request-Keeps s.link fd entry_msg b s
      (record { sent = refl; writes = refl; closed = refl })

pub update-same : {A : Type 0} (f : ℕ → A) (fd : ℕ) (a : A) → update f fd a fd ≡ a
update-same f fd a = ground arith

-- A descriptor whose kernel takes the bytes has sent them.
pub socket_writen_sends :
    (fd : ℕ) (bytes : List ℕ) (s : Sockets)
    → length bytes ≤ capacity (s.writes fd)
    → (t : Sockets) × (socket_writen fd bytes s ≡ (done (ret (length bytes)), t))
      × (t.sent ≡ update s.sent fd (s.sent fd ++ bytes))
      × (t.reads ≡ s.reads)
unfolding socket_writen
socket_writen_sends fd bytes s room =
    let (rest, e) = writen_sends (s.writes fd) bytes room in
    let after : Sockets = record s {
      writes = update s.writes fd rest;
      sent = update s.sent fd (s.sent fd ++ bytes);
    } in
    (after, ground (arith, e), refl, refl)
