-- ===== src/Object/Messages.antt =====
-- Messages constructed in memory: their headers, their sizes and their members.
use gservices.Base.{
  ℕ, ◌-◌, ◌^◌, ◌≡◌, ◌≤◌, ◌<◌, refl, sym, ap, ◌∙◌, List, ◌++◌, some, Aleph, done, arith, length,
  take, drop, get_elem?, length-append, length-drop, take-append-drop, take-append_le, take_ge, inr,
}
use gservices.Wire.{word, length-word}
use gservices.Message.{
  MsgEntryHeader, send, service_value, header_size, client_entry, service_exit, encode_entry,
  decode_entry,
}
use gservices.Message.Layout.{EntryFits, ExitFits, decode_entry-encode_entry, length-encode_entry}
use gservices.Object.{
  CType, IsStored, Shape, end_of, sizeof, offset_of, put, store_members, member, sized_message,
  set_invocation_size,
}
use gservices.Object.Window.{length-put, window-put_ne}
use gservices.Object.Members.{
  Fit, end_of_ge, offset_of_ge, sizeof_ge, store_members_keeps, member-store_members,
}

-- The header of a request with a code, in an object of a size.
abbrev pub call_header : ℕ → ℕ → MsgEntryHeader
call_header code size = record {
  deamon_service_code = service_value send;
  client_service_code = code;
  parameters_size = size - header_size;
  invocation_size = 0;
}

-- A header and what lies behind it.
abbrev pub headed : List ℕ → List ℕ → List ℕ
headed header memory = header ++ drop header_size memory

pub length-headed :
    (header memory : List ℕ)
    → length header ≡ header_size
    → header_size ≤ length memory
    → length (headed header memory) ≡ length memory
length-headed header memory sized room =
    omega (arith, length-append header (drop header_size memory), length-drop header_size memory)

sized_message-made :
    (k : Aleph) (code size : ℕ) (ss : List Shape) (cs : List (List ℕ)) (memory : List ℕ)
    {S : Type 0} (s : S)
    → code < 2 ^ 31
    → header_size ≤ size
    → size < 2 ^ 32
    → sized_message k code size ss cs memory s ≡ (
      done (store_members header_size ss cs (headed (encode_entry (call_header code size)) memory)),
      s,
    )
unfolding sized_message client_entry
sized_message-made k code size ss cs memory s small above below = ground arith

-- The first bytes of an object are its header, whatever its members are.
pub header_kept :
    (header : List ℕ) (ss : List Shape) (cs : List (List ℕ)) (memory : List ℕ)
    → length header ≡ header_size
    → Fit ss cs
    → end_of header_size ss ≤ length memory
    → store_members header_size ss cs (headed header memory)
      ≡ header ++ drop header_size (store_members header_size ss cs (headed header memory))
header_kept header ss cs memory sized fit room =
    let above = end_of_ge header_size ss in
    let before = length-headed header memory sized (omega arith) in
    let (counted, kept) =
      store_members_keeps header_size ss cs (headed header memory) fit (omega arith) in
    let front : take header_size (store_members header_size ss cs (headed header memory)) ≡ header =
      kept 0 header_size (omega arith)
      ∙ take-append_le header_size header (drop header_size memory) (omega arith)
      ∙ take_ge header_size header (omega arith) in
    let object : List ℕ = store_members header_size ss cs (headed header memory) in
    sym (take-append-drop header_size object)
    ∙ ap (λ (x : List ℕ). x ++ drop header_size object) front

-- The fields of such a header are words.
call_header-EntryFits :
    (code size : ℕ) → code < 2 ^ 31 → size < 2 ^ 32 → EntryFits (call_header code size)
call_header-EntryFits code size small below = omega arith

service_exit-ExitFits : (status : ℕ) → status < 2 ^ 32 → ExitFits (service_exit status)
service_exit-ExitFits status small = omega arith

-- The code is one that the header's ASSERT accepts, the arguments have the members' sizes, and the
-- object's memory holds `sizeof` of it.
pub record Constructs (code size : ℕ) (ss : List Shape) (cs : List (List ℕ)) (memory : List ℕ)
    : Type 0 where
  pub code_small : code < 2 ^ 31
  pub size_small : size < 2 ^ 32
  pub fit : Fit ss cs
  pub holds : sizeof ss ≤ size
  pub room : size ≤ length memory

-- `invocation_size` of a header in memory, set afterwards.
set_invocation_size-encode_entry :
    (h : MsgEntryHeader) (rest : List ℕ) (n : ℕ)
    → set_invocation_size (encode_entry h ++ rest) n
      ≡ encode_entry (record h { invocation_size = n }) ++ rest
unfolding set_invocation_size put encode_entry word
set_invocation_size-encode_entry h rest n = refl

pub length-set_invocation_size :
    (memory : List ℕ) (n : ℕ)
    → header_size ≤ length memory
    → length (set_invocation_size memory n) ≡ length memory
unfolding set_invocation_size
length-set_invocation_size memory n room =
    length-put memory 12 (word n) (omega (arith, length-word n))

-- The members stand behind the header, so they are not changed by it.
pub member-set_invocation_size :
    {A : Type 0} (t : CType A) (ss : List Shape) (i : ℕ) (memory : List ℕ) (n : ℕ)
    → header_size ≤ length memory
    → member t ss i (set_invocation_size memory n) ≡ member t ss i memory
unfolding member set_invocation_size
member-set_invocation_size t ss i memory n room =
    let sized = length-word n in
    ap t.value (
      window-put_ne memory 12 (word n) (omega arith) (offset_of header_size ss i) t.size
        (inr (omega (arith, offset_of_ge header_size ss i))))

-- What a constructor has made: the object is as large as its memory was, and starts with its
-- header.
module _ (code size : ℕ) (ss : List Shape) (cs : List (List ℕ)) (memory : List ℕ) where
  unfoldable pub made : List ℕ
  made = store_members header_size ss cs (headed (encode_entry (call_header code size)) memory)

  module _ (ready : Constructs code size ss cs memory) where
    ends : end_of header_size ss ≤ length memory
    ends = let room = ready.room in let holds = ready.holds in omega (arith, sizeof_ge ss)

    pub sized_message_lem :
        (k : Aleph) {S : Type 0} (s : S) → sized_message k code size ss cs memory s ≡ (done made, s)
    unfolding made
    sized_message_lem k s =
        let holds = ready.holds in
        sized_message-made k code size ss cs memory s ready.code_small
          (omega (arith, sizeof_ge ss, end_of_ge header_size ss)) ready.size_small

    pub covers : header_size ≤ size
    covers = let holds = ready.holds in omega (arith, sizeof_ge ss, end_of_ge header_size ss)

    pub length-made : length made ≡ length memory
    unfolding made
    length-made =
        let above = end_of_ge header_size ss in
        let room = ends in
        let sized = length-encode_entry (call_header code size) in
        let same =
          length-headed (encode_entry (call_header code size)) memory sized (omega arith) in
        let (counted, kept) =
          store_members_keeps header_size ss cs
            (headed (encode_entry (call_header code size)) memory) ready.fit (omega arith) in
        counted ∙ same

    pub made-append : made ≡ encode_entry (call_header code size) ++ drop header_size made
    unfolding made
    made-append =
        header_kept _ ss cs memory (length-encode_entry (call_header code size)) ready.fit ends

    pub decode_entry-made : decode_entry made ≡ some (call_header code size, drop header_size made)
    decode_entry-made =
        ap decode_entry made-append
        ∙ decode_entry-encode_entry _ (drop header_size made)
            (call_header-EntryFits code size ready.code_small ready.size_small)

    pub set_invocation_size-made :
        (n : ℕ)
        → set_invocation_size made n
          ≡ encode_entry (record (call_header code size) { invocation_size = n })
            ++ drop header_size made
    set_invocation_size-made n =
        ap (λ (x : List ℕ). set_invocation_size x n) made-append
        ∙ set_invocation_size-encode_entry (call_header code size) (drop header_size made) n

    pub decode_entry-set_invocation_size :
        (n : ℕ)
        → n < 2 ^ 32
        → decode_entry (set_invocation_size made n)
          ≡ some (record (call_header code size) { invocation_size = n }, drop header_size made)
    decode_entry-set_invocation_size n small =
        ap decode_entry (set_invocation_size-made n)
        ∙ decode_entry-encode_entry _ (drop header_size made)
            (let code_small = ready.code_small in let size_small = ready.size_small in omega arith)

    pub member-made :
        {A : Type 0} (t : CType A) (i : ℕ) (a : A)
        → IsStored t a
        → get_elem? cs i ≡ some (t.bytes a)
        → member t ss i made ≡ some a
    unfolding made
    member-made t i a lawful there =
        let above = end_of_ge header_size ss in
        let room = ends in
        let sized = length-encode_entry (call_header code size) in
        let same =
          length-headed (encode_entry (call_header code size)) memory sized (omega arith) in
        member-store_members t ss cs _ i a lawful ready.fit (omega arith) there
