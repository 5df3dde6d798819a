-- ===== src/RemoteMessage/Packed.antt =====
-- The counters of the ping messages, and the places behind them.
use gservices.Base.{
  ℕ, zero, suc, ◌+◌, ◌*◌, ◌^◌, ◌≡◌, ◌≤◌, ◌<◌, refl, ap, ◌∙◌, ◌⊎◌, inl, inr, List, [], ◌∷◌, ◌++◌,
  some, done, arith, length, get_elem?,
}
use native.Mathlib.Nat.{mul-le-mul_right, suc-mul}
use gservices.Wire.{u32, word, word_value, take_word}
use gservices.Message.{MsgEntryHeader, header_size, encode_entry}
use gservices.Object.{CType, IsStored, put, window, member, sizeof, round_up, offset_of}
use gservices.RemoteMessage.Pings.{ping_shapes, counter, copy_to, copy_from}

-- Places before another one end before it starts.
pub mul_le : (i j e : ℕ) → i < j → i * e + e ≤ j * e
mul_le i j e h =
    let le : suc i * e ≤ j * e = mul-le-mul_right e h in
    let step : suc i * e ≡ i * e + e = suc-mul i e in omega arith

-- The entries of an object whose header takes the 24 bytes in front: the places are `size` bytes
-- large, the first of them hold the entries, and all of them lie inside the memory.
pub record IsPacked (h : MsgEntryHeader) (size places : ℕ) (entries : List (List ℕ))
    (memory : List ℕ) : Type 0 where
  pub header : window 0 header_size memory ≡ encode_entry h
  pub counted : window 16 4 memory ≡ word places
  pub actual : window 20 4 memory ≡ word (length entries)
  pub bounded : length entries ≤ places
  pub places_small : places < 2 ^ 32
  pub small : 24 + places * size < 2 ^ 32
  pub room : 24 + places * size ≤ length memory
  pub held :
      (i : ℕ) (c : List ℕ)
      → get_elem? entries i ≡ some c
      → (length c ≡ size) × (window (24 + i * size) size memory ≡ c)

-- Reading a counter.
pub counter_reads :
    (i n : ℕ) (memory : List ℕ)
    → n < 2 ^ 32
    → window (offset_of header_size ping_shapes i) 4 memory ≡ word n
    → counter i memory ≡ (done n, memory)
unfolding counter member word take_word
counter_reads i n memory small e = ground (arith, e, word_value n small)

pub copy_to_inside :
    (offset : ℕ) (bytes memory : List ℕ)
    → offset + length bytes ≤ length memory
    → copy_to offset bytes memory ≡ (done tt, put memory offset bytes)
unfolding copy_to
copy_to_inside offset bytes memory inside = ground arith

pub copy_from_reads :
    {A : Type 0} (c : CType A) (offset : ℕ) (memory : List ℕ) (a : A)
    → IsStored c a
    → window offset c.size memory ≡ c.bytes a
    → copy_from c offset memory ≡ (done a, memory)
unfolding copy_from
copy_from_reads c offset memory a good e =
    let read : c.value (window offset c.size memory) ≡ some a = ap c.value e ∙ good.value-bytes in
    rw (copy_from, read) refl

-- The place of an entry, as the unsigned arithmetic of the code finds it.
pub place_u32 :
    (h : MsgEntryHeader) (size places : ℕ) (entries : List (List ℕ)) (memory : List ℕ) (i : ℕ)
    → IsPacked h size places entries memory
    → i < places
    → sizeof ping_shapes + u32 (i * size) ≡ 24 + i * size
unfolding sizeof
place_u32 h size places entries memory i packed below =
    let small = packed.small in omega (arith, mul_le i places size below)

pub get_elem?-append_end :
    {A : Type 0} (xs : List A) (x y : A) (i : ℕ)
    → get_elem? (xs ++ x ∷ []) i ≡ some y
    → (get_elem? xs i ≡ some y) ⊎ ((i ≡ length xs) × (x ≡ y))
get_elem?-append_end [] x y zero h = inr (refl, cc)
get_elem?-append_end [] x y (suc i) h = absurd (cc)
get_elem?-append_end (z ∷ xs) x y zero h = inl h
get_elem?-append_end (z ∷ xs) x y (suc i) h = elim (get_elem?-append_end xs x y i h) [
  | inl e ↦ inl e
  | inr (e, f) ↦ inr (ap suc e, f)
]

-- The counters of such an object.
module _ (h : MsgEntryHeader) (size places : ℕ) (entries : List (List ℕ)) (memory : List ℕ)
    (packed : IsPacked h size places entries memory) where
  pub counts_places : counter 0 memory ≡ (done places, memory)
  unfolding offset_of round_up
  counts_places = counter_reads 0 places memory packed.places_small packed.counted

  pub counts_entries : counter 1 memory ≡ (done (length entries), memory)
  unfolding offset_of round_up
  counts_entries =
      let bounded = packed.bounded in
      let small = packed.places_small in
      counter_reads 1 (length entries) memory (omega arith) packed.actual
