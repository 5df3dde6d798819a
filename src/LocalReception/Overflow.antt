-- ===== src/LocalReception/Overflow.antt =====
-- The size that include/local_reception_point.C gives to `malloc`, a size_t, for the sizes in a
-- header.
use gservices.Base.{
  ℕ, ◌+◌, ◌%◌, ◌^◌, ◌≤◌, ◌<◌, ◌≡◌, inl, inr, List, [], ◌∷◌, ◌++◌, stopped, out_of_bounds, arith,
  length, drop, ltb_cases, length-append, length-drop, append-nil, drop_ge,
}
use gservices.Readwrite.Stream.{stream}
use gservices.Message.{MsgEntryHeader, encode_entry, header_size}
use gservices.Message.Layout.{EntryFits, length-encode_entry, decode_entry-encode_entry}
use gservices.Reception.{ReceptionPoint}
use gservices.LocalReception.{
  Sockets, Blocks, block, store, read_part, read_message, new_node, read_request,
}
use gservices.LocalReception.Framing.{socket_readn_delivers, store-append, length-block}

-- A write that ends outside of its block.
store_overflows :
    (memory : List ℕ) (offset : ℕ) (bytes : List ℕ) {S : Type 0} (s : S)
    → length memory < offset + length bytes
    → store memory offset bytes s ≡ (stopped out_of_bounds, s)
unfolding store
store_overflows memory offset bytes s h = ground arith

-- A part that arrives whole and does not fit behind the others.
read_part_overflows :
    (fd : ℕ) (memory : List ℕ) (offset : ℕ) (bytes later : List ℕ) (s : ReceptionPoint Sockets)
    → length memory < offset + length bytes
    → offset ≤ length memory
    → stream (s.link.reads fd) ≡ bytes ++ later
    → (t : ReceptionPoint Sockets) × (read_part fd memory offset (length bytes) s
        ≡ (stopped out_of_bounds, t))
unfolding read_part
read_part_overflows fd memory offset [] later s h above e = absurd (omega arith)
read_part_overflows fd memory offset (b ∷ bytes) later s h above e =
    let (l, r, left) = socket_readn_delivers fd (b ∷ bytes) later s.link e in
    (
      record s { link = l },
      ground (arith, r, store_overflows memory offset (b ∷ bytes) (record s { link = l }) h),
    )

module _ (fd : ℕ) (h : MsgEntryHeader) (parameters later : List ℕ) (blocks : Blocks) where
  -- The number of bytes that are allocated for the message of a header.
  abbrev pub allocated : ℕ
  allocated = (header_size + h.parameters_size + h.invocation_size) % 2 ^ 32

  read_message_overflows :
      (s : ReceptionPoint Sockets)
      → h.parameters_size ≡ length parameters
      → allocated < header_size + h.parameters_size
      → stream (s.link.reads fd) ≡ parameters ++ later
      → (t : ReceptionPoint Sockets) × (read_message fd (encode_entry h) h blocks s
          ≡ (stopped out_of_bounds, t))
  unfolding read_message
  read_message_overflows s counted short e =
      let m0 : List ℕ = block blocks.contents 0 allocated in
      let s1 : ReceptionPoint Sockets = record s {
        binding_list = new_node fd blocks ∷ s.binding_list;
      } in
      let size : length m0 ≡ allocated = length-block blocks.contents 0 allocated in
      let eh : length (encode_entry h) ≡ 16 = length-encode_entry h in
      elim (ltb_cases allocated header_size) [
        | inl (below, _) ↦
            (s1, ground (arith, store_overflows m0 0 (encode_entry h) s1 (omega arith)))
        | inr (above, _) ↦
            let m1 : List ℕ = encode_entry h ++ drop (length (encode_entry h)) m0 in
            let size1 : length m1 ≡ allocated = omega (
              arith,
              length-append (encode_entry h) (drop (length (encode_entry h)) m0),
              length-drop (length (encode_entry h)) m0,
            ) in
            let (t, p) =
              read_part_overflows fd m1 header_size parameters later s1 (omega arith) (omega arith)
                e in
            (t, ground (arith, store-append [] m0 (encode_entry h) s1 (omega arith), p))
      ]

  -- A header of 32-bit words arrives with the parameters that it counts, and the sum of the two
  -- sizes and of the header's is so large that, as a size_t, it is smaller than the header with the
  -- parameters. Then the server stores bytes outside of the block that it has allocated for the
  -- message.
  pub read_request_overflows :
      (entry_msg : List ℕ) (s : ReceptionPoint Sockets)
      → length entry_msg ≡ header_size
      → EntryFits h
      → h.parameters_size ≡ length parameters
      → allocated < header_size + h.parameters_size
      → stream (s.link.reads fd) ≡ encode_entry h ++ (parameters ++ later)
      → (t : ReceptionPoint Sockets) × (read_request fd entry_msg blocks s
          ≡ (stopped out_of_bounds, t))
  unfolding read_request
  read_request_overflows entry_msg s sized words counted short e =
      let eh : length (encode_entry h) ≡ 16 = length-encode_entry h in
      let (l1, p1, q1) = socket_readn_delivers fd (encode_entry h) (parameters ++ later) s.link e in
      let (t, p2) = read_message_overflows (record s { link = l1 }) counted short q1 in
      (
        t,
        ground (
          arith,
          p1,
          p2,
          drop_ge (length (encode_entry h)) entry_msg (omega arith),
          append-nil (encode_entry h),
          decode_entry-encode_entry h [] words,
        ),
      )
