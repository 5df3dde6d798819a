-- ===== src/Message/Layout.antt =====
-- The headers of include/base_message_header.H in memory, written and read.
use gservices.Base.{
  ◌+◌, drop, length-append, length-drop, ℕ, ◌^◌, ◌<◌, ◌≡◌, refl, List, ◌∷◌, ◌++◌, some, arith,
  length,
}
use gservices.Wire.{word_value, word, strcpy, read_c_str_text, IsText, take_word}
use gservices.Message.{
  MsgEntryHeader, MsgExitHeader, encode_entry, decode_entry, encode_exit, decode_exit,
  register_message, service_name_of, ServiceCode, service_of, service_value, add, system_entry,
  name_size,
}

-- Every field is a 32-bit word.
pub record EntryFits (h : MsgEntryHeader) : Type 0 where
  pub code_fits : h.deamon_service_code < 2 ^ 32
  pub client_fits : h.client_service_code < 2 ^ 32
  pub parameters_fit : h.parameters_size < 2 ^ 32
  pub invocation_fits : h.invocation_size < 2 ^ 32

pub record ExitFits (h : MsgExitHeader) : Type 0 where
  pub code_fits : h.deamon_response_code < 2 ^ 32
  pub response_fits : h.response_size < 2 ^ 32
  pub invocation_fits : h.invocation_size < 2 ^ 32
  pub client_fits : h.response_code < 2 ^ 32

pub length-encode_entry : (h : MsgEntryHeader) → length (encode_entry h) ≡ 16
unfolding encode_entry word
length-encode_entry h = refl

pub length-encode_exit : (h : MsgExitHeader) → length (encode_exit h) ≡ 16
unfolding encode_exit word
length-encode_exit h = refl

-- A request header whose fields are 32-bit words is read back from memory with all its fields,
-- whatever follows it.
pub decode_entry-encode_entry :
    (h : MsgEntryHeader) (rest : List ℕ)
    → EntryFits h
    → decode_entry (encode_entry h ++ rest) ≡ some (h, rest)
unfolding encode_entry decode_entry word take_word
decode_entry-encode_entry h rest f = ground (
  arith,
  word_value h.deamon_service_code f.code_fits,
  word_value h.client_service_code f.client_fits,
  word_value h.parameters_size f.parameters_fit,
  word_value h.invocation_size f.invocation_fits,
)

-- A response header whose fields are 32-bit words is read back from memory with all its fields,
-- whatever follows it.
pub decode_exit-encode_exit :
    (h : MsgExitHeader) (rest : List ℕ)
    → ExitFits h
    → decode_exit (encode_exit h ++ rest) ≡ some (h, rest)
unfolding encode_exit decode_exit word take_word
decode_exit-encode_exit h rest f = ground (
  arith,
  word_value h.deamon_response_code f.code_fits,
  word_value h.response_size f.response_fits,
  word_value h.invocation_size f.invocation_fits,
  word_value h.response_code f.client_fits,
)

pub service_of-service_value : (code : ServiceCode) → service_of (service_value code) ≡ some code
service_of-service_value code = ground arith

abbrev pub registration : ℕ → MsgEntryHeader
registration srvc_code = system_entry add srvc_code name_size

pub registration-EntryFits :
    (srvc_code : ℕ) → srvc_code < 2 ^ 32 → EntryFits (registration srvc_code)
registration-EntryFits srvc_code h = omega arith

-- A name without NUL bytes that fits into the array with its NUL, and a 32-bit code, make a
-- registration message, which is read back as a header with DEMSERV_ADD, the client's code and the
-- array's size, and then the same name.
pub register_message_reads :
    (srvc_code : ℕ) (name array : List ℕ)
    → srvc_code < 2 ^ 32
    → IsText name
    → length name < length array
    → (copy : List ℕ) × (register_message srvc_code name array
        ≡ some (encode_entry (registration srvc_code) ++ copy))
      × (length copy ≡ length array)
      × (decode_entry (encode_entry (registration srvc_code) ++ copy)
          ≡ some (registration srvc_code, copy))
      × (service_name_of (encode_entry (registration srvc_code) ++ copy) ≡ some name)
unfolding register_message service_name_of strcpy
register_message_reads srvc_code name array fits text room =
    let copy : List ℕ = name ++ 0 ∷ drop (length name + 1) array in
    let back = decode_entry-encode_entry _ copy (registration-EntryFits srvc_code fits) in
    (
      copy,
      ground arith,
      omega (
        arith,
        length-append name (0 ∷ drop (length name + 1) array),
        length-drop (length name + 1) array,
      ),
      back,
      rw back (read_c_str_text name (drop (length name + 1) array) text),
    )
