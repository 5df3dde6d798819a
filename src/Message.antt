-- ===== src/Message.antt =====
-- include/base_message_header.H: the codes and the headers of the messages, and the system's own
-- messages. A message in memory is the list of its bytes; a code is the word that stands there.
pub mod Layout
use gservices.Base.{
  ℕ, ◌+◌, ◌-◌, ◌==◌, if◌then◌else◌, List, [], ◌∷◌, ◌++◌, Option, none, some, Bool, true, false, M,
  Aleph, pure, stop, assert, ◌>>=◌, ◌>>◌, out_of_bounds, length, leb, drop,
}
use gservices.Wire.{u32, sub_u32, is_nonneg, word, take_word, strcpy, read_c_str}

pub data ResponseCode : Type 0 where
  registration_ok intended_double_registration service_not_found : ResponseCode
  response_to_service shutdown_gotten invalid_response last_response : ResponseCode

pub data ServiceCode : Type 0 where
  add send shutdown invalid_service last_service : ServiceCode

abbrev pub response_value : ResponseCode → ℕ
response_value registration_ok = 0
response_value intended_double_registration = 1
response_value service_not_found = 2
response_value response_to_service = 3
response_value shutdown_gotten = 4
response_value invalid_response = 5
response_value last_response = 6

abbrev pub service_value : ServiceCode → ℕ
service_value add = 0
service_value send = 1
service_value shutdown = 2
service_value invalid_service = 3
service_value last_service = 4

-- The enumerator that a word names, as a `switch` over Service_Code finds it.
abbrev pub service_of : ℕ → Option ServiceCode
service_of w =
    if w == 0
    then some add
    else if w == 1
    then some send
    else if w == 2
    then some shutdown
    else if w == 3
    then some invalid_service
    else if w == 4
    then some last_service
    else none

-- sizeof(Msg_Entry_Header) and sizeof(Msg_Exit_Header): four words each.
abbrev pub header_size : ℕ
header_size = 16

-- The array `service_name`.
abbrev pub name_size : ℕ
name_size = 80

pub record MsgEntryHeader : Type 0 where
  pub deamon_service_code : ℕ
  pub client_service_code : ℕ
  pub parameters_size : ℕ
  pub invocation_size : ℕ

pub record MsgExitHeader : Type 0 where
  pub deamon_response_code : ℕ
  pub response_size : ℕ
  pub invocation_size : ℕ
  pub response_code : ℕ

-- The constructor of the system's own messages.
abbrev pub system_entry : ServiceCode → ℕ → ℕ → MsgEntryHeader
system_entry code client_code msg_size = record {
  deamon_service_code = service_value code;
  client_service_code = client_code;
  parameters_size = msg_size;
  invocation_size = 0;
}

-- The constructor of a client's message: `msg_size` counts the header.
unfoldable pub client_entry : Aleph → ℕ → ℕ → {S : Type 0} → M S MsgEntryHeader
client_entry k srvc_code msg_size = do
  let header : MsgEntryHeader = record {
    deamon_service_code = service_value send;
    client_service_code = srvc_code;
    parameters_size = sub_u32 msg_size header_size;
    invocation_size = 0;
  }
  assert k (leb 0 (sub_u32 msg_size header_size))
  assert k (is_nonneg srvc_code)
  pure header

-- The constructor of the system's responses.
abbrev pub system_exit : ResponseCode → ℕ → MsgExitHeader
system_exit resp_type resp_code = record {
  deamon_response_code = response_value resp_type;
  response_size = 0;
  invocation_size = 0;
  response_code = resp_code;
}

-- The constructor of a service's reply.
abbrev pub service_exit : ℕ → MsgExitHeader
service_exit resp_code = record {
  deamon_response_code = response_value response_to_service;
  response_size = 0;
  invocation_size = 0;
  response_code = resp_code;
}

abbrev pub empty_exit : MsgExitHeader
empty_exit = record {
  deamon_response_code = response_value invalid_response;
  response_size = 0;
  invocation_size = 0;
  response_code = response_value invalid_response;
}

-- Response_For_Registration(deam_resp_code), with the default of its second argument.
abbrev pub response_for_registration : ResponseCode → MsgExitHeader
response_for_registration deam_resp_code = system_exit deam_resp_code 0

abbrev pub shutdown_message : MsgEntryHeader
shutdown_message = system_entry shutdown (service_value invalid_service) 0

abbrev pub shutdown_response : MsgExitHeader
shutdown_response = system_exit shutdown_gotten 0

unfoldable pub encode_entry : MsgEntryHeader → List ℕ
encode_entry h =
    word h.deamon_service_code
    ++ (word h.client_service_code ++ (word h.parameters_size ++ word h.invocation_size))

unfoldable pub encode_exit : MsgExitHeader → List ℕ
encode_exit h =
    word h.deamon_response_code
    ++ (word h.response_size ++ (word h.invocation_size ++ word h.response_code))

-- Reading memory through a `Msg_Entry_Header *`: the header and what follows it. No result: fewer
-- bytes are there than the header has.
infixl 5 ◌>>?◌
abbrev pub ◌>>?◌ : {A B : Type 0} → Option A → (A → Option B) → Option B
none >>? f = none
some a >>? f = f a

unfoldable pub decode_entry : List ℕ → Option (MsgEntryHeader × List ℕ)
decode_entry memory = take_word memory >>? λ (code, m1). take_word m1 >>? λ (client_code, m2).
    take_word m2 >>? λ (parameters, m3). take_word m3 >>? λ (invocation, rest). some (
      record {
        deamon_service_code = code;
        client_service_code = client_code;
        parameters_size = parameters;
        invocation_size = invocation;
      },
      rest,
    )

unfoldable pub decode_exit : List ℕ → Option (MsgExitHeader × List ℕ)
decode_exit memory = take_word memory >>? λ (code, m1). take_word m1 >>? λ (response, m2).
    take_word m2 >>? λ (invocation, m3). take_word m3 >>? λ (client_code, rest). some (
      record {
        deamon_response_code = code;
        response_size = response;
        invocation_size = invocation;
        response_code = client_code;
      },
      rest,
    )

-- `request->...` and `reply->...` in a call: memory too short for the header is read outside.
unfoldable pub entry_at : List ℕ → {S : Type 0} → M S (MsgEntryHeader × List ℕ)
entry_at memory = elim (decode_entry memory) [ none ↦ stop out_of_bounds | some h ↦ pure h ]

unfoldable pub exit_at : List ℕ → {S : Type 0} → M S (MsgExitHeader × List ℕ)
exit_at memory = elim (decode_exit memory) [ none ↦ stop out_of_bounds | some h ↦ pure h ]

-- A `Register_Message`. `array` is what the memory of its `service_name` held before.
unfoldable pub register_message : ℕ → List ℕ → List ℕ → Option (List ℕ)
register_message srvc_code src_serv_name array = strcpy array src_serv_name >>? λ service_name.
    some (encode_entry (system_entry add srvc_code name_size) ++ service_name)

-- `static_cast<Register_Message *>(message)->get_service_name()`, up to its NUL. No result: the
-- message ends before one.
unfoldable pub service_name_of : List ℕ → Option (List ℕ)
service_name_of message = decode_entry message >>? λ (header, name). read_c_str name
