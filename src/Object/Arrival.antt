-- ===== src/Object/Arrival.antt =====
-- A message that a constructor has made, from the memory of the client to that of the server.
use gservices.Base.{
  ℕ, ◌+◌, ◌-◌, ◌^◌, ◌≡◌, ◌≤◌, ◌<◌, refl, sym, ap, ◌∙◌, List, [], ◌∷◌, ◌++◌, some, false, Aleph,
  done, arith, length, take, drop, get_elem?, length-drop, append-nil, append_assoc, take-append_le,
  drop-append_le,
}
use gservices.Readwrite.Output.{capacity}
use gservices.Readwrite.Stream.{stream}
use gservices.Message.{MsgEntryHeader, header_size, encode_entry}
use gservices.Access.{AccessPoint, send_with_buffer}
use gservices.Reception.{ReceptionPoint}
use gservices.LocalAccess.{LocalLink, local_transport}
use gservices.Access.Sending.{request}
use gservices.LocalReception.{Sockets, Blocks, read_request, new_node}
use gservices.Object.{CType, IsStored, Shape, shape, offset_of, member, set_invocation_size}
use gservices.Object.Messages.{
  call_header, Constructs, covers, made, member-made, member-set_invocation_size, length-made,
  set_invocation_size-made, length-set_invocation_size,
}
use gservices.Object.Members.{offset_of_end, sizeof_ge}
use gservices.Session.{send_then_read}

-- What lies behind an object does not change its members.
pub member-append :
    {A : Type 0} (t : CType A) (ss : List Shape) (i : ℕ) (object beyond : List ℕ)
    → offset_of header_size ss i + t.size ≤ length object
    → member t ss i (object ++ beyond) ≡ member t ss i object
unfolding member
member-append t ss i object beyond inside =
    let o : ℕ = offset_of header_size ss i in
    ap t.value (
      ap (take t.size) (drop-append_le o object beyond (omega arith))
      ∙ take-append_le t.size (drop o object) beyond (omega (arith, length-drop o object)))

abbrev pub invocation_header : ℕ → ℕ → List ℕ → MsgEntryHeader
invocation_header code size buffer = record (call_header code size) {
  invocation_size = length buffer;
}

-- The object, in which the constructor has set the size of the invocation.
abbrev pub object : ℕ → ℕ → List Shape → List (List ℕ) → List ℕ → List ℕ → List ℕ
object code size ss cs memory buffer =
    set_invocation_size (made code size ss cs memory) (length buffer)

module _ (code size : ℕ) (ss : List Shape) (cs : List (List ℕ)) (memory buffer : List ℕ)
    (ready : Constructs code size ss cs memory) (whole : length memory ≡ size) where
  pub object_arrives :
      (k : Aleph) (unsent later : List ℕ) (client : AccessPoint LocalLink)
      (server : ReceptionPoint Sockets) (fd : ℕ) (entry_msg : List ℕ) (blocks : Blocks)
      (name : List ℕ)
      → client.locked ≡ false
      → client.link.sent ≡ []
      → get_elem? client.table code ≡ some (some name)
      → size + length buffer < 2 ^ 32
      → size + length buffer ≤ capacity client.link.writes
      → length entry_msg ≡ header_size
      → stream (server.link.reads fd)
        ≡ (send_with_buffer
            (local_transport k)
            k
            (object code size ss cs memory buffer)
            (buffer ++ unsent)
            (length buffer)
            client).1.link.sent
          ++ later
      → (l : Sockets) × (read_request fd entry_msg blocks server ≡ (
        done (
          encode_entry (invocation_header code size buffer),
          some (object code size ss cs memory buffer ++ buffer),
        ),
        record server { link = l; binding_list = new_node fd blocks ∷ server.binding_list },
      ))
        × (stream (l.reads fd) ≡ later)
  object_arrives k unsent later client server fd entry_msg blocks name free fresh registered total
        room sized carried =
      let h : MsgEntryHeader = invocation_header code size buffer in
      let parameters : List ℕ = drop header_size (made code size ss cs memory) in
      let code_small = ready.code_small in
      let size_small = ready.size_small in
      let covers = covers code size ss cs memory ready in
      let counted : length parameters ≡ size - header_size = omega (
        arith,
        whole,
        length-made code size ss cs memory ready,
        length-drop header_size (made code size ss cs memory),
      ) in
      let split : object code size ss cs memory buffer ≡ encode_entry h ++ parameters =
        set_invocation_size-made code size ss cs memory ready (length buffer) in
      let asked : request k h parameters [] ≡ object code size ss cs memory buffer =
        ap (λ (x : List ℕ). encode_entry h ++ x) (append-nil parameters) ∙ sym split in
      let joined : encode_entry h ++ (parameters ++ buffer)
          ≡ object code size ss cs memory buffer ++ buffer =
        sym (append_assoc (encode_entry h) parameters buffer)
        ∙ ap (λ (x : List ℕ). x ++ buffer) (sym split) in
      let (l, reads, left) =
        send_then_read k h parameters [] buffer unsent later client server fd entry_msg blocks free
          fresh (name, registered)
          (record {
            words = omega arith;
            parameters_counted = sym counted;
            total_fits = omega arith;
          })
          refl (omega arith) sized
          (carried
            ∙ ap
                (λ (x : List ℕ).
                  (send_with_buffer (local_transport k) k x (buffer ++ unsent) (length buffer)
                    client).1.link.sent
                  ++ later)
                (sym asked)) in
      (l, rw (sym joined) reads, left)

  -- What the constructor was given is read from the message that has arrived.
  pub member-object :
      {A : Type 0} (t : CType A) (i : ℕ) (a : A)
      → IsStored t a
      → get_elem? ss i ≡ some (shape t)
      → get_elem? cs i ≡ some (t.bytes a)
      → member t ss i (object code size ss cs memory buffer ++ buffer) ≡ some a
  member-object t i a lawful typed there =
      let covered = covers code size ss cs memory ready in
      let holds = ready.holds in
      let same = length-made code size ss cs memory ready in
      let kept =
        length-set_invocation_size (made code size ss cs memory) (length buffer) (omega arith) in
      let inside = offset_of_end header_size ss i (shape t) typed in
      member-append t ss i (object code size ss cs memory buffer) buffer
        (omega (arith, sizeof_ge ss))
      ∙ member-set_invocation_size t ss i (made code size ss cs memory) (length buffer)
          (omega arith)
      ∙ member-made code size ss cs memory ready t i a lawful there
