-- ===== src/Wire.antt =====
-- The 32-bit words of the messages, as i386 keeps them in memory: four bytes, the low one first.
-- include/Makefile builds for i386, where int, long, enum and size_t are such words.
use gservices.Base.{
  ℕ, ◌+◌, ◌-◌, ◌*◌, ◌/◌, ◌%◌, ◌^◌, ◌<◌, ◌≡◌, refl, List, [], ◌∷◌, ◌++◌, Option, none, some, Bool,
  true, false, arith, length, drop, ltb, if◌then◌else◌,
}

-- What an unsigned word keeps of a number.
abbrev pub u32 : ℕ → ℕ
u32 n = n % 2 ^ 32

-- a - b on unsigned words.
abbrev pub sub_u32 : ℕ → ℕ → ℕ
sub_u32 a b = (a + 2 ^ 32 - b) % 2 ^ 32

-- A long as its bit pattern: `x >= 0`.
abbrev pub is_nonneg : ℕ → Bool
is_nonneg x = ltb x (2 ^ 31)

unfoldable pub word : ℕ → List ℕ
word n = n % 256 ∷ n / 256 % 256 ∷ n / 65536 % 256 ∷ n / 16777216 % 256 ∷ []

-- The word at the front of a piece of memory, and what follows it.
unfoldable pub take_word : List ℕ → Option (ℕ × List ℕ)
take_word (a ∷ b ∷ c ∷ d ∷ rest) = some (a + 256 * b + 65536 * c + 16777216 * d, rest)
take_word _ = none

pub take_word-word :
    (n : ℕ) (rest : List ℕ) → n < 2 ^ 32 → take_word (word n ++ rest) ≡ some (n, rest)
unfolding take_word word
take_word-word n rest h = ground arith

pub word_value :
    (n : ℕ)
    → n < 2 ^ 32
    → n % 256 + 256 * (n / 256 % 256) + 65536 * (n / 65536 % 256) + 16777216 * (n / 16777216 % 256)
      ≡ n
word_value n h = omega arith

pub length-word : (n : ℕ) → length (word n) ≡ 4
unfolding word
length-word n = refl

-- A C string in an array: what stands before the first NUL.
unfoldable pub c_str : List ℕ → List ℕ
c_str [] = []
c_str (x ∷ xs) = elim (ltb 0 x) [ true ↦ x ∷ c_str xs | false ↦ [] ]

-- A C string in memory of which these bytes are known. No result: it does not end among them.
unfoldable pub read_c_str : List ℕ → Option (List ℕ)
read_c_str [] = none
read_c_str (x ∷ xs) = elim (ltb 0 x) [
  | true ↦ elim (read_c_str xs) [ none ↦ none | some text ↦ some (x ∷ text) ]
  | false ↦ some []
]

-- No byte of the text is a NUL.
abbrev pub IsText : List ℕ → Type 0
IsText [] = Unit {0}
IsText (x ∷ xs) = (0 < x) × IsText xs

-- `strcpy` into an array, which keeps its other bytes. No result: the text and its NUL do not fit.
unfoldable pub strcpy : List ℕ → List ℕ → Option (List ℕ)
strcpy array text =
    if ltb (length text) (length array)
    then some (text ++ 0 ∷ drop (length text + 1) array)
    else none

pub c_str_text : (text rest : List ℕ) → IsText text → c_str (text ++ 0 ∷ rest) ≡ text
unfolding c_str
c_str_text [] rest h = refl
c_str_text (x ∷ xs) rest h = ground (arith, c_str_text xs rest h.1)

pub read_c_str_text : (text rest : List ℕ) → IsText text → read_c_str (text ++ 0 ∷ rest) ≡ some text
unfolding read_c_str
read_c_str_text [] rest h = refl
read_c_str_text (x ∷ xs) rest h = ground (arith, read_c_str_text xs rest h.1)

-- What `strcpy` has copied is read back.
pub c_str-strcpy :
    (array text : List ℕ) {copy : List ℕ}
    → IsText text
    → strcpy array text ≡ some copy
    → c_str copy ≡ text
unfolding strcpy
c_str-strcpy array text h e = ground (arith, c_str_text text (drop (length text + 1) array) h)
