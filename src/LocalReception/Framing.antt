-- ===== src/LocalReception/Framing.antt =====
-- One request as include/local_reception_point.C takes it off a socket.
use gservices.Base.{
  ℕ, zero, suc, ◌+◌, ◌^◌, ◌≤◌, ◌<◌, ◌≡◌, refl, ap, ◌∙◌, List, [], ◌∷◌, ◌++◌, some, done, arith,
  length, drop, take_all, drop_all, drop_all_add, drop_ge, length-append, length-drop, append_assoc,
  append-nil,
}
use gservices.Readwrite.{ret}
use gservices.Readwrite.Stream.{stream, readn_delivers}
use gservices.Message.{MsgEntryHeader, encode_entry, header_size}
use gservices.Message.Layout.{EntryFits, length-encode_entry, decode_entry-encode_entry}
use gservices.Reception.{ReceptionPoint}
use gservices.LocalReception.{
  Sockets, update, socket_readn, Blocks, block, store, read_part, new_node, read_message,
  read_request,
}

-- A descriptor whose next bytes are known hands over exactly these, and keeps what follows them.
pub socket_readn_delivers :
    (fd : ℕ) (bytes later : List ℕ) (s : Sockets)
    → stream (s.reads fd) ≡ bytes ++ later
    → (t : Sockets) × (socket_readn fd (length bytes) s ≡ (done (ret (length bytes), bytes), t))
      × (stream (t.reads fd) ≡ later)
unfolding socket_readn
socket_readn_delivers fd bytes later s e =
    let (rest, r, left, _) =
      readn_delivers (s.reads fd) (length bytes)
        (rw e (omega (arith, length-append bytes later))) in
    (
      record s { reads = update s.reads fd rest },
      ground (arith, r, e, take_all bytes later),
      ground (arith, left, e, drop_all bytes later),
    )

pub store-append :
    (before after bytes : List ℕ) {S : Type 0} (s : S)
    → length bytes ≤ length after
    → store (before ++ after) (length before) bytes s
      ≡ (done (before ++ (bytes ++ drop (length bytes) after)), s)
unfolding store
store-append before after bytes s h = ground (
  arith,
  length-append before after,
  take_all before after,
  drop_all_add (length bytes) before after,
)

-- One part of the message is read behind those that are there.
read_part_appends :
    (fd : ℕ) (before after bytes later : List ℕ) (s : ReceptionPoint Sockets)
    → length bytes ≤ length after
    → stream (s.link.reads fd) ≡ bytes ++ later
    → (l : Sockets) × (read_part fd (before ++ after) (length before) (length bytes) s
        ≡ (done (before ++ (bytes ++ drop (length bytes) after)), record s { link = l }))
      × (stream (l.reads fd) ≡ later)
unfolding read_part
read_part_appends fd before after [] later s h e = (s.link, ground arith, e)
read_part_appends fd before after (b ∷ bytes) later s h e =
    let (l, r, left) = socket_readn_delivers fd (b ∷ bytes) later s.link e in
    (l, ground (arith, r, store-append before after (b ∷ bytes) (record s { link = l }) h), left)

pub length-block : (contents : ℕ → ℕ) (i n : ℕ) → length (block contents i n) ≡ n
unfolding block
length-block contents i zero = refl
length-block contents i (suc n) = ap suc (length-block contents (suc i) n)

-- The size of a message that a size_t can hold, with its parts behind its header.
pub record PartsFit (h : MsgEntryHeader) (parameters invocation : List ℕ) : Type 0 where
  pub words : EntryFits h
  pub parameters_counted : h.parameters_size ≡ length parameters
  pub invocation_counted : h.invocation_size ≡ length invocation
  pub total_fits : header_size + length parameters + length invocation < 2 ^ 32

module _ (fd : ℕ) (h : MsgEntryHeader) (parameters invocation later : List ℕ)
    (blocks : Blocks) where
  abbrev pub sent_message : List ℕ
  sent_message = encode_entry h ++ (parameters ++ invocation)

  read_message_lem :
      (s : ReceptionPoint Sockets)
      → PartsFit h parameters invocation
      → stream (s.link.reads fd) ≡ parameters ++ (invocation ++ later)
      → (l : Sockets) × (read_message fd (encode_entry h) h blocks s ≡ (
        done sent_message,
        record s { link = l; binding_list = new_node fd blocks ∷ s.binding_list },
      ))
        × (stream (l.reads fd) ≡ later)
  unfolding read_message
  read_message_lem s fit e =
      let size : ℕ = header_size + length parameters + length invocation in
      let m0 : List ℕ = block blocks.contents 0 size in
      let s1 : ReceptionPoint Sockets = record s {
        binding_list = new_node fd blocks ∷ s.binding_list;
      } in
      let r1 : List ℕ = drop (length (encode_entry h)) m0 in
      let r2 : List ℕ = drop (length parameters) r1 in
      let eh : length (encode_entry h) ≡ 16 = length-encode_entry h in
      let e0 : length m0 ≡ size = length-block blocks.contents 0 size in
      let e1 : length r1 ≡ length parameters + length invocation =
        omega (arith, length-drop (length (encode_entry h)) m0) in
      let e2 : length r2 ≡ length invocation = omega (arith, length-drop (length parameters) r1) in
      let (l1, p1, q1) =
        read_part_appends fd (encode_entry h) r1 parameters (invocation ++ later) s1 (omega arith)
          e in
      let (l2, p2, q2) =
        read_part_appends fd (encode_entry h ++ parameters) r2 invocation later
          (record s1 { link = l1 }) (omega arith) q1 in
      let assoc = append_assoc (encode_entry h) parameters in
      (
        l2,
        ground (
          arith,
          store-append [] m0 (encode_entry h) s1 (omega arith),
          p1,
          p2,
          length-append (encode_entry h) parameters,
          assoc r2,
          assoc (invocation ++ drop (length invocation) r2),
          drop_ge (length invocation) r2 (omega arith),
          append-nil invocation,
        ),
        q2,
      )

  -- A message whose sizes are those of its parts is taken whole: whatever the array `entry_msg` and
  -- the new block held, and however the bytes arrive, the dispatcher is given the header, the
  -- parameters and the invocation as they were sent, the next message starts where this one ends,
  -- and the list gets one entry, busy, with the block and the socket.
  pub read_request_frames :
      (entry_msg : List ℕ) (s : ReceptionPoint Sockets)
      → length entry_msg ≡ header_size
      → PartsFit h parameters invocation
      → stream (s.link.reads fd) ≡ sent_message ++ later
      → (l : Sockets) × (read_request fd entry_msg blocks s ≡ (
        done (encode_entry h, some sent_message),
        record s { link = l; binding_list = new_node fd blocks ∷ s.binding_list },
      ))
        × (stream (l.reads fd) ≡ later)
  unfolding read_request
  read_request_frames entry_msg s sized fit e =
      let eh : length (encode_entry h) ≡ 16 = length-encode_entry h in
      let (l1, p1, q1) =
        socket_readn_delivers fd (encode_entry h) (parameters ++ (invocation ++ later)) s.link (
          e
          ∙ append_assoc (encode_entry h) (parameters ++ invocation) later
          ∙ ap (◌++◌ (encode_entry h)) (append_assoc parameters invocation later)) in
      let (l2, p2, q2) = read_message_lem (record s { link = l1 }) fit q1 in
      (
        l2,
        ground (
          arith,
          p1,
          p2,
          drop_ge (length (encode_entry h)) entry_msg (omega arith),
          append-nil (encode_entry h),
          decode_entry-encode_entry h [] fit.words,
        ),
        q2,
      )
