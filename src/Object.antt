-- ===== src/Object.antt =====
-- Objects of C++ classes in memory, as the i386 ABI lays them out: the header of a message, and
-- then the data members in their order, each at the next multiple of its alignment.
pub mod Window
pub mod Members
pub mod Messages
pub mod Answers
pub mod Arrival
use gservices.Base.{
  ℕ, zero, suc, ◌+◌, ◌-◌, ◌%◌, ◌≡◌, ◌≤◌, ◌<◌, List, [], ◌∷◌, ◌++◌, Option, none, some, M, Aleph,
  pure, ◌>>=◌, length, take, drop,
}
use gservices.Wire.{u32, word, take_word}
use gservices.Message.{
  MsgExitHeader, header_size, client_entry, service_exit, encode_entry, encode_exit,
}

-- A type of data members that `memcpy` may copy: its size and alignment, the bytes of a value, the
-- value of some bytes, and what its default constructor makes of the bytes that it finds.
pub record CType (A : Type 0) : Type 0 where
  pub size : ℕ
  pub align : ℕ
  pub bytes : A → List ℕ
  pub value : List ℕ → Option A
  pub fresh : List ℕ → List ℕ

-- The bytes of a value have the type's size, and are read back as the value.
pub record IsCType {A : Type 0} (c : CType A) : Type 0 where
  pub length-bytes : (a : A) → length (c.bytes a) ≡ c.size
  pub value-bytes : (a : A) → c.value (c.bytes a) ≡ some a

-- The same for one value.
pub record IsStored {A : Type 0} (c : CType A) (a : A) : Type 0 where
  pub length-bytes : length (c.bytes a) ≡ c.size
  pub value-bytes : c.value (c.bytes a) ≡ some a

abbrev pub stored : {A : Type 0} {c : CType A} → IsCType c → (a : A) → IsStored c a
stored lawful a = record {
  length-bytes = lawful.length-bytes a;
  value-bytes = lawful.value-bytes a;
}

pub record Shape : Type 0 where
  pub size : ℕ
  pub align : ℕ
  pub fresh : List ℕ → List ℕ

abbrev pub shape : {A : Type 0} → CType A → Shape
shape c = record { size = c.size; align = c.align; fresh = c.fresh }

-- The next multiple of an alignment.
unfoldable pub round_up : ℕ → ℕ → ℕ
round_up n align = n + (align - n % align) % align

-- The end of the members that start at an offset.
unfoldable pub end_of : ℕ → List Shape → ℕ
end_of start [] = start
end_of start (s ∷ ss) = end_of (round_up start s.align + s.size) ss

-- sizeof(*this) of a class derived from one of the two headers.
unfoldable pub sizeof : List Shape → ℕ
unfolding round_up end_of
sizeof ss = round_up (end_of header_size ss) 4

unfoldable pub offset_of : ℕ → List Shape → ℕ → ℕ
offset_of start [] i = start
offset_of start (s ∷ ss) zero = round_up start s.align
offset_of start (s ∷ ss) (suc i) = offset_of (round_up start s.align + s.size) ss i

-- Bytes stored at an offset of a piece of memory that holds them.
unfoldable pub put : List ℕ → ℕ → List ℕ → List ℕ
put memory offset bytes = take offset memory ++ (bytes ++ drop (offset + length bytes) memory)

-- A constructor stores the members one after the other; padding keeps what the memory held.
unfoldable pub store_members : ℕ → List Shape → List (List ℕ) → List ℕ → List ℕ
store_members start (s ∷ ss) (c ∷ cs) memory =
    store_members (round_up start s.align + s.size) ss cs (put memory (round_up start s.align) c)
store_members start _ _ memory = memory

-- The bytes from an offset on.
abbrev pub window : ℕ → ℕ → List ℕ → List ℕ
window offset size memory = take size (drop offset memory)

-- The default constructors of the members.
unfoldable pub store_fresh : ℕ → List Shape → List ℕ → List ℕ
store_fresh start [] memory = memory
store_fresh start (s ∷ ss) memory =
    store_fresh (round_up start s.align + s.size) ss (
      put memory (round_up start s.align) (s.fresh (window (round_up start s.align) s.size memory)))

-- `return member`, for the i-th data member of a message.
unfoldable pub member : {A : Type 0} → CType A → List Shape → ℕ → List ℕ → Option A
member c ss i memory = c.value (window (offset_of header_size ss i) c.size memory)

-- A member of type int, unsigned, size_t or an enumeration.
abbrev pub word_type : CType ℕ
word_type = record {
  size = 4;
  align = 4;
  bytes = word;
  value = λ bytes. elim (take_word bytes) [ none ↦ none | some (n, _) ↦ some n ];
  fresh = λ bytes. bytes;
}

-- A class derived from Msg_Entry_Header whose constructor passes on a code and `size`, constructed
-- in the memory given.
unfoldable pub sized_message :
    Aleph → ℕ → ℕ → List Shape → List (List ℕ) → List ℕ → {S : Type 0} → M S (List ℕ)
sized_message k code size ss cs memory = do
  header ← client_entry k code (u32 size)
  pure (store_members header_size ss cs (encode_entry header ++ drop header_size memory))

-- The same with `sizeof(*this)`.
unfoldable pub call_message :
    Aleph → ℕ → List Shape → List (List ℕ) → List ℕ → {S : Type 0} → M S (List ℕ)
unfolding sized_message
call_message k code ss cs memory = sized_message k code (sizeof ss) ss cs memory

-- The same for a constructor that leaves its members to their default constructors.
unfoldable pub fresh_call_message : Aleph → ℕ → List Shape → List ℕ → {S : Type 0} → M S (List ℕ)
fresh_call_message k code ss memory = do
  header ← client_entry k code (u32 (sizeof ss))
  pure (store_fresh header_size ss (encode_entry header ++ drop header_size memory))

-- A class derived from Msg_Exit_Header whose constructor passes on a status.
unfoldable pub return_message : ℕ → List Shape → List (List ℕ) → List ℕ → List ℕ
return_message status ss cs memory =
    store_members header_size ss cs (encode_exit (service_exit status) ++ drop header_size memory)

-- One whose constructor leaves its members to their default constructors.
unfoldable pub fresh_message : ℕ → List Shape → List ℕ → List ℕ
fresh_message status ss memory =
    store_fresh header_size ss (encode_exit (service_exit status) ++ drop header_size memory)

-- `set_invocation_size` on a message in memory.
unfoldable pub set_invocation_size : List ℕ → ℕ → List ℕ
set_invocation_size memory size = put memory 12 (word size)
