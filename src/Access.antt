-- ===== src/Access.antt =====
-- include/access_point.H and include/access_point.C: the client's side of a connection.
-- The functions behind `readn` and `writen` come with the kind of access point: `Transport`.
pub mod Lock
pub mod Register
pub mod Sending
use gservices.Base.{
  ℕ, ◌+◌, ◌-◌, ◌^◌, ◌==◌, if◌then◌else◌, ltb, leb, List, [], ◌∷◌, ◌++◌, Option, none, some, Bool,
  true, false, not, M, Aleph, Outcome, done, thrown, stopped, blocked, Exception, not_found,
  duplicated, size_fault, out_of_bounds, pure, get, throw, stop, assert, error, ◌>>=◌, ◌>>◌, length,
  get_elem?, set, take, drop, replicate,
}
use gservices.Wire.{u32, strcpy, c_str}
use gservices.Readwrite.{Ssize, ret, minus_one}
use gservices.Message.{
  MsgEntryHeader, MsgExitHeader, ServiceCode, add, send, shutdown, service_of, response_value,
  registration_ok, service_not_found, header_size, name_size, entry_at, exit_at, encode_exit,
  empty_exit, register_message,
}

-- `Read_Fct` and `Write_Fct` over the state of a link: what is read, and how many bytes went out.
pub record Transport (L : Type 0) : Type 0 where
  pub readn : ℕ → M L (Ssize × List ℕ)
  pub writen : List ℕ → M L Ssize

-- An entry of the table is the name that was registered, or NULL.
pub record AccessPoint (L : Type 0) : Type 0 where
  pub link : L
  pub table : List (Option (List ℕ))
  pub locked : Bool
  pub is_shutdown : Bool

abbrev pub access_point : {L : Type 0} → L → ℕ → AccessPoint L
access_point link no_of_services = record {
  link = link;
  table = replicate no_of_services none;
  locked = false;
  is_shutdown = false;
}

-- What an object of the caller's holds after `readn` has stored bytes at its start.
abbrev pub overwrite : List ℕ → List ℕ → List ℕ
overwrite stored memory = stored ++ drop (length stored) memory

-- `(*readn)(...) == 0`
abbrev pub is_zero : Ssize → Bool
is_zero (ret n) = n == 0
is_zero minus_one = false

-- `(*writen)(...) < 0`, for a count of 32 bits with its sign.
abbrev pub is_negative : Ssize → Bool
is_negative (ret n) = leb (2 ^ 31) n
is_negative minus_one = true

module _ {L : Type 0} where
  -- `pthread_mutex_lock(lock_send)`: a mutex that is held keeps the caller waiting.
  abbrev pub lock : M (AccessPoint L) (Unit {0})
  lock s = elim s.locked [ true ↦ (blocked, s) | false ↦ (done tt, record s { locked = true }) ]

  abbrev pub unlock : M (AccessPoint L) (Unit {0})
  unlock s = (done tt, record s { locked = false })

  abbrev on_link : {A : Type 0} → AccessPoint L → Outcome A × L → Outcome A × AccessPoint L
  on_link s (o, l) = (o, record s { link = l })

  -- A call that works on the link.
  abbrev pub via : {A : Type 0} → M L A → M (AccessPoint L) A
  via m s = on_link s (m s.link)

  -- `table[service_code]`
  pub entry : ℕ → M (AccessPoint L) (Option (List ℕ))
  entry service_code s = elim (get_elem? s.table service_code) [
    | none ↦ (stopped out_of_bounds, s)
    | some e ↦ (done e, s)
  ]

  pub set_entry : ℕ → Option (List ℕ) → M (AccessPoint L) (Unit {0})
  set_entry service_code e s =
      if ltb service_code (length s.table)
      then (done tt, record s { table = set s.table service_code e })
      else (stopped out_of_bounds, s)

  unfoldable pub delete_service : ℕ → M (AccessPoint L) (Unit {0})
  unfolding entry set_entry
  delete_service service_code = do
    e ← entry service_code
    elim e [ none ↦ throw not_found | some _ ↦ set_entry service_code none ]

  -- The `switch` of `send`.
  unfoldable pub check_header : Aleph → MsgEntryHeader → M (AccessPoint L) (Unit {0})
  unfolding entry
  check_header k request = elim (service_of request.deamon_service_code) [
    | none ↦ error k
    | some code ↦ elim code [
      | send ↦ do
        e ← entry request.client_service_code
        elim e [ none ↦ throw not_found | some _ ↦ pure tt ]
      | add ↦ pure tt
      | shutdown ↦ pure tt
      | _ ↦ error k
    ]
  ]

  -- The first `size` bytes of an object of the caller's.
  abbrev pub bytes_of : List ℕ → ℕ → M (AccessPoint L) (List ℕ)
  bytes_of memory size =
      if leb size (length memory) then pure (take size memory) else stop out_of_bounds

  -- The mutex is released, and then the exception thrown.
  abbrev pub unlock_and_throw : {A : Type 0} → Exception → M (AccessPoint L) A
  unlock_and_throw e = do unlock; throw e

  module _ (t : Transport L) (k : Aleph) where
    -- `if ((*writen)(link_to_deamon, message, size) < 0) ERROR(...)`
    pub write : List ℕ → M (AccessPoint L) (Unit {0})
    write message = do
      status ← via (t.writen message)
      if is_negative status then error k else pure tt

    -- `send(request)`, where `request` points to the bytes given.
    unfoldable pub send_request : List ℕ → M (AccessPoint L) (Unit {0})
    unfolding entry_at write
    send_request request = do
      lock
      (header, _) ← entry_at request
      check_header k header
      message ← bytes_of request (u32 (header_size + header.parameters_size))
      write message

    -- `send(request, buffer, buffer_size)`. The block is `malloc(size)`, with the size of a size_t:
    -- the copies must end inside it.
    unfoldable pub send_with_buffer : List ℕ → List ℕ → ℕ → M (AccessPoint L) (Unit {0})
    unfolding entry_at write
    send_with_buffer request buffer buffer_size = do
      lock
      (header, _) ← entry_at request
      check_header k header
      let first_size = u32 (header_size + header.parameters_size)
      let size = u32 (header_size + header.parameters_size + buffer_size)
      first ← bytes_of request first_size
      second ← bytes_of buffer buffer_size
      elim (leb (first_size + buffer_size) size) [
        | true ↦ write (first ++ second)
        | false ↦ stop out_of_bounds
      ]

    -- `if (size != reply->get_response_size())`, up to the end of `receive`.
    pub check_size : ℕ → ℕ → List ℕ → M (AccessPoint L) (List ℕ)
    check_size size response_size reply =
        if size == response_size
        then (do unlock; pure reply)
        else unlock_and_throw (size_fault size)

    -- `receive(reply, size)`: the result is what `reply` holds at the end.
    unfoldable pub receive_reply : List ℕ → ℕ → M (AccessPoint L) (List ℕ)
    unfolding exit_at check_size
    receive_reply reply size = do
      assert k (leb header_size size)
      (status, stored) ← via (t.readn size)
      elim (is_zero status) [
        | true ↦ unlock_and_throw not_found
        | false ↦ do
          (header, _) ← exit_at (overwrite stored reply)
          check_size size header.response_size (overwrite stored reply)
      ]

    -- `size_buf = (*readn)(...)` and the ASSERT after it; a count of -1 goes into a size_t.
    pub read_buffer : ℕ → List ℕ → M (AccessPoint L) (List ℕ × ℕ)
    read_buffer invocation buffer = do
      (status, stored) ← via (t.readn invocation)
      let count : ℕ = elim status [ ret n ↦ n | minus_one ↦ 2 ^ 32 - 1 ]
      assert k (invocation == count)
      pure (overwrite stored buffer, count)

    -- The middle of `receive` with a buffer: INVOCATION_SIZE is `invocation`. The result is what
    -- the buffer holds and `size_buf`.
    pub read_invocation : ℕ → List ℕ → ℕ → M (AccessPoint L) (List ℕ × ℕ)
    unfolding read_buffer
    read_invocation invocation buffer size_buf =
        if ltb 0 invocation
        then (if ltb size_buf invocation
            then unlock_and_throw (size_fault invocation)
            else read_buffer invocation buffer)
        else pure (buffer, size_buf)

    -- `receive` with a buffer, from the first test of INVOCATION_SIZE to the end.
    pub receive_rest :
        MsgExitHeader → List ℕ → ℕ → List ℕ → ℕ → M (AccessPoint L) (List ℕ × List ℕ × ℕ)
    unfolding check_size read_invocation
    receive_rest header reply size_msg buffer size_buf = do
      (buffer', size_buf') ← read_invocation header.invocation_size buffer size_buf
      reply' ← check_size size_msg header.response_size reply
      pure (reply', buffer', size_buf')

    -- `receive(reply, size_msg, buffer, size_buf)`. The second ASSERT looks at what `reply` holds
    -- before the message is read.
    unfoldable pub receive_with_buffer :
        List ℕ → ℕ → List ℕ → ℕ → M (AccessPoint L) (List ℕ × List ℕ × ℕ)
    unfolding exit_at
    receive_with_buffer reply size_msg buffer size_buf = do
      assert k (leb header_size size_msg)
      (before, _) ← exit_at reply
      assert k (leb before.invocation_size size_buf)
      (status, stored) ← via (t.readn size_msg)
      elim (is_zero status) [
        | true ↦ unlock_and_throw not_found
        | false ↦ do
          (header, _) ← exit_at (overwrite stored reply)
          receive_rest header (overwrite stored reply) size_msg buffer size_buf
      ]

    -- The `switch` of `add_service` on the response to the registration.
    pub on_response : ℕ → ℕ → List ℕ → M (AccessPoint L) (Unit {0})
    unfolding set_entry
    on_response response_code service_code name =
        if response_code == response_value registration_ok
        then (if ltb (length name) name_size
            then set_entry service_code (some name)
            else stop out_of_bounds)
        else if response_code == response_value service_not_found
        then throw duplicated
        else error k

    -- `add_service`. `array` is what the memory of the message's `service_name` held before.
    unfoldable pub add_service : ℕ → List ℕ → List ℕ → M (AccessPoint L) (Unit {0})
    unfolding exit_at on_response send_request receive_reply register_message
    add_service service_code name array = elim (register_message service_code name array) [
      | none ↦ stop out_of_bounds
      | some reg_msg ↦ do
        send_request reg_msg
        reply ← receive_reply (encode_exit empty_exit) header_size
        (response, _) ← exit_at reply
        on_response response.response_code service_code name
    ]
